-- ===== src/Json/Quoting.antt =====
-- How `json.Marshal` writes a text, with the escaping of HTML that it has by default.
pub mod RoundTrip
use Prim.Native.Char.{Char, code}
use cribe.Prelude.{ℕ, ◌+◌, ◌/◌, ◌%◌, ◌≡◌, refl, String, nat_eq, ltb, ◌||◌, if◌then◌else◌}
use cribe.Json.Runes.{rune}

-- A digit of "0123456789abcdef".
abbrev pub hex : ℕ → Char
unfolding rune
hex n = if ltb n 10 then rune (48 + n) else rune (87 + n)

abbrev pub unit_prefix : String → String
unit_prefix rest = String.◌∷◌ "\\" (String.◌∷◌ "u" rest)

-- `\u00XX` and `\u202X`
abbrev pub control : ℕ → String → String
control n rest =
    unit_prefix
      (String.◌∷◌ "0" (String.◌∷◌ "0" (String.◌∷◌ (hex (n / 16)) (String.◌∷◌ (hex (n % 16)) rest))))

abbrev pub separator : ℕ → String → String
separator n rest =
    unit_prefix (String.◌∷◌ "2" (String.◌∷◌ "0" (String.◌∷◌ "2" (String.◌∷◌ (hex (n % 16)) rest))))

abbrev pub backslashed : Char → String → String
backslashed c rest = String.◌∷◌ "\\" (String.◌∷◌ c rest)

-- One character, in front of a text.
unfoldable pub escape : Char → String → String
unfolding hex
escape c rest =
    let n = code c in
    if nat_eq n 34 || nat_eq n 92
    then backslashed c rest
    else if nat_eq n 10
    then backslashed "n" rest
    else if nat_eq n 13
    then backslashed "r" rest
    else if nat_eq n 9
    then backslashed "t" rest
    else if ltb n 32 || nat_eq n 38 || nat_eq n 60 || nat_eq n 62
    then control n rest
    else if nat_eq n 8232 || nat_eq n 8233
    then separator n rest
    else String.◌∷◌ c rest

unfoldable pub escaped : String → String → String
escaped String.[] rest = rest
escaped (String.◌∷◌ c s) rest = escape c (escaped s rest)

unfoldable pub quote : String → String → String
unfolding escaped
quote s rest = String.◌∷◌ "\"" (escaped s (String.◌∷◌ "\"" rest))

quote_test : quote "a<\"\n\u{1}" "" ≡ "\"a\\u003c\\\"\\n\\u0001\""
unfolding quote escaped escape
quote_test = refl
