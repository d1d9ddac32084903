-- ===== src/Session/Encoding.antt =====
-- pkg/botstate/session.go: the JSON of `StateEncoded`, by the tags of its fields.
pub mod RoundTrip
use cribe.Prelude.{String, List, [], ◌∷◌, ◌≡◌, refl, none, some}
use cribe.Exec.{ok}
use cribe.Errors.{message}
use cribe.Bytes.{Bytes, Codec}
use cribe.Json.Quoting.{quote, escaped, escape}
use cribe.Json.Values.{add_member, add_item}
use cribe.Json.Scanner.{parse, run, complete}
use cribe.Json.Strings.{read_char}
use cribe.Json.Fields.{
  onto, Field, text_field, unmarshal, set_members, set_field, fold_name, syntax_error,
}
use cribe.Fsm.{StateType}

pub record StateEncoded : Type 0 where
  pub current : StateType
  pub previous : StateType

abbrev pub zero_state : StateEncoded
zero_state = record { current = ""; previous = "" }

unfoldable pub state_fields : List (Field StateEncoded)
unfolding text_field
state_fields =
    text_field "StateEncoded" "current" "botstate.StateType" (λ s a. record a { current = s })
    ∷ text_field "StateEncoded" "previous" "botstate.StateType" (λ s a. record a { previous = s })
    ∷ []

unfoldable pub encode_state : StateEncoded → Bytes
encode_state s =
    onto "{\"current\":" (quote s.current (onto ",\"previous\":" (quote s.previous "}")))

unfoldable pub state_json : Codec StateEncoded
unfolding encode_state state_fields
state_json = record {
  marshal = λ s. ok (encode_state s);
  unmarshal = unmarshal "botstate.StateEncoded" state_fields;
}

encode_state_test :
    encode_state (record { current = "a\"<"; previous = "" })
    ≡ "{\"current\":\"a\\\"\\u003c\",\"previous\":\"\"}"
unfolding encode_state quote escaped escape
encode_state_test = refl

-- A key of another case, an unknown key, and a key that comes twice.
unmarshal_test :
    state_json.unmarshal zero_state " {\"Current\":\"x\",\"more\":[1,{}],\"current\":\"y\"}\n"
    ≡ (record { current = "y"; previous = "" }, none)
unfolding state_json unmarshal set_members set_field fold_name parse run complete add_member
    read_char
unmarshal_test = refl

-- A value of another type leaves its field alone, and the others are filled.
mismatch_test : state_json.unmarshal zero_state "{\"current\":[],\"previous\":\"x\"}" ≡ (
  record { current = ""; previous = "x" },
  some (
      message
        "json: cannot unmarshal array into Go struct field StateEncoded.current of type botstate.StateType"),
)
unfolding state_json unmarshal set_members set_field fold_name parse run complete add_member
    add_item read_char
mismatch_test = refl
