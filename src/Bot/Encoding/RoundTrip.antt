-- ===== src/Bot/Encoding/RoundTrip.antt =====
-- The JSON of a payload is read back.
use cribe.Prelude.{none, some, [], ◌∷◌, ◌≡◌, refl, ◌∙◌}
use cribe.Prelude.Decimal.{itoa}
use cribe.Exec.{ok}
use cribe.Json.Quoting.{quote}
use cribe.Json.Quoting.RoundTrip.{run-quote}
use cribe.Json.Numbers.RoundTrip.{run-itoa, InInt64, parse_int-itoa}
use cribe.Json.Strings.{read_char}
use cribe.Json.Values.{text, number, object, Members, no_members, member, add_member}
use cribe.Json.Scanner.{in_object, step, run, complete, parse}
use cribe.Json.Fields.{onto, text_field, int_field, unmarshal, set_members, set_field, fold_name}
use cribe.Bot.Services.{Payload}
use cribe.Bot.Encoding.{payload_fields, encode_payload, payload_json}

-- What stands in the object.
abbrev members_of : Payload → Members
members_of p = member "mime" (text p.mime) (
    member "quality" (text p.quality)
      (member "video_id" (text p.video_id) (member "chat_id" (number (itoa p.chat_id)) no_members)))

parse-encode_payload : (p : Payload) → parse (encode_payload p) ≡ some (object (members_of p))
unfolding parse encode_payload run step read_char complete add_member
parse-encode_payload p =
    let chat = onto ",\"chat_id\":" (onto (itoa p.chat_id) "}") in
    let video = onto ",\"video_id\":" (quote p.video_id chat) in
    let m1 = member "mime" (text p.mime) no_members in
    let m2 = member "mime" (text p.mime) (member "quality" (text p.quality) no_members) in
    let m3 =
      member "mime" (text p.mime)
        (member "quality" (text p.quality) (member "video_id" (text p.video_id) no_members)) in
    run-quote (in_object no_members "mime" ∷ []) p.mime
      (onto ",\"quality\":" (quote p.quality video))
    ∙ run-quote (in_object m1 "quality" ∷ []) p.quality video
    ∙ run-quote (in_object m2 "video_id" ∷ []) p.video_id chat
    ∙ run-itoa (in_object m3 "chat_id" ∷ []) p.chat_id ""

pub payload_json-marshal : (p : Payload) → payload_json.marshal p ≡ ok (encode_payload p)
unfolding payload_json
payload_json-marshal p = refl

-- A payload whose chat has an id of 64 bits is decoded from its JSON as it was, whatever the variable
-- held before.
pub payload_json-unmarshal :
    (p target : Payload)
    → InInt64 p.chat_id
    → payload_json.unmarshal target (encode_payload p) ≡ (p, none)
unfolding payload_json unmarshal set_members set_field fold_name payload_fields text_field int_field
payload_json-unmarshal p target h =
    rw (parse-encode_payload p) (rw (parse_int-itoa p.chat_id h) refl)
