-- ===== src/BuildInfo.antt =====
-- internal/buildinfo/buildinfo.go: what the program prints at its start.
use Prim.Native.Char.{code}
use cribe.Prelude.{String, ◌<>◌, List, [], ◌∷◌, nat_eq, ◌&&◌, ◌≡◌, refl, if◌then◌else◌}

abbrev pub graffiti : String
graffiti =
    "             ._____.                   ___.           __   \n  ___________|__\\_ |__   ____          \\_ |__   _____/  |_ \n_/ ___\\_  __ \\  || __ \\_/ __ \\   ______ | __ \\ /  _ \\   __\\\n\\  \\___|  | \\/  || \\_\\ \\  ___/  /_____/ | \\_\\ (  <_> )  |  \n \\___  >__|  |__||___  /\\___  >         |___  /\\____/|__|  \n     \\/              \\/     \\/              \\/             "

abbrev pub greeting_cli : String
greeting_cli = "\nversion: %s \nbuild time: %s\ntg: %s\ngithub: %s\n"

abbrev pub github_bloop_url : String
github_bloop_url = "https://github.com/robotomize/cribe.git"

abbrev pub tg_bloop_url : String
tg_bloop_url = "https://t.me/cribe_bot"

-- The variables, which a build may set.
pub record BuildInfo : Type 0 where
  pub build_tag : String
  pub name : String
  pub time : String

abbrev pub info : BuildInfo
info = record { build_tag = "v0.0.0"; name = "cribebot"; time = "" }

-- fmt.Fprintf of texts alone: each `%s` is the next text.
unfoldable pub format : String → List String → String
format String.[] args = ""
format (String.◌∷◌ c String.[]) args = String.◌∷◌ c String.[]
format (String.◌∷◌ c (String.◌∷◌ d rest)) [] = String.◌∷◌ c (format (String.◌∷◌ d rest) [])
format (String.◌∷◌ c (String.◌∷◌ d rest)) (arg ∷ args) =
    let taken = format rest args in
    let kept = format (String.◌∷◌ d rest) (arg ∷ args) in
    if nat_eq (code c) 37 && nat_eq (code d) 115 then arg <> taken else String.◌∷◌ c kept

unfoldable pub greeting : BuildInfo → String
unfolding format
greeting b = format greeting_cli (b.build_tag ∷ b.time ∷ tg_bloop_url ∷ github_bloop_url ∷ [])

greeting_test :
    greeting info
    ≡ "\nversion: v0.0.0 \nbuild time: \ntg: https://t.me/cribe_bot\ngithub: https://github.com/robotomize/cribe.git\n"
unfolding greeting format
greeting_test = refl
