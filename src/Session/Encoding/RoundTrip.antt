-- ===== src/Session/Encoding/RoundTrip.antt =====
-- The JSON of a state is read back.
use cribe.Prelude.{none, some, [], ◌∷◌, ◌≡◌, refl, ◌∙◌}
use cribe.Exec.{ok}
use cribe.Json.Quoting.{quote}
use cribe.Json.Quoting.RoundTrip.{run-quote}
use cribe.Json.Strings.{read_char}
use cribe.Json.Values.{text, object, no_members, member, add_member}
use cribe.Json.Scanner.{in_object, step, run, complete, parse}
use cribe.Json.Fields.{onto, text_field, unmarshal, set_members, set_field, fold_name}
use cribe.Session.Encoding.{StateEncoded, state_fields, encode_state, state_json}

parse-encode_state :
    (s : StateEncoded)
    → parse (encode_state s)
      ≡ some (
          object
            (member "current" (text s.current) (member "previous" (text s.previous) no_members)))
unfolding parse encode_state run step read_char complete add_member
parse-encode_state s =
    run-quote (in_object no_members "current" ∷ []) s.current
      (onto ",\"previous\":" (quote s.previous "}"))
    ∙ run-quote (in_object (member "current" (text s.current) no_members) "previous" ∷ [])
        s.previous "}"

pub state_json-marshal : (s : StateEncoded) → state_json.marshal s ≡ ok (encode_state s)
unfolding state_json
state_json-marshal s = refl

-- A state is decoded from its JSON as it was, whatever the variable held before.
pub state_json-unmarshal :
    (s target : StateEncoded) → state_json.unmarshal target (encode_state s) ≡ (s, none)
unfolding state_json unmarshal set_members set_field fold_name state_fields text_field
state_json-unmarshal s target = rw (parse-encode_state s) refl
