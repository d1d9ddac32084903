-- ===== src/Bot/Encoding.antt =====
-- internal/bot/server.go: the JSON of `Payload`, by the tags of its fields.
pub mod RoundTrip
use cribe.Prelude.{List, [], ◌∷◌, ◌≡◌, refl, none, some}
use cribe.Prelude.Decimal.{pos, negsuc, itoa}
use cribe.Exec.{ok}
use cribe.Bytes.{Bytes, Codec}
use cribe.Json.Quoting.{quote, escaped, escape}
use cribe.Json.Scanner.{parse}
use cribe.Json.Fields.{onto, Field, text_field, int_field, unmarshal}
use cribe.Bot.Services.{Payload, zero_payload}
use cribe.Errors.{message}

unfoldable pub payload_fields : List (Field Payload)
unfolding text_field int_field
payload_fields =
    text_field "Payload" "mime" "string" (λ s a. record a { mime = s })
    ∷ text_field "Payload" "quality" "string" (λ s a. record a { quality = s })
    ∷ text_field "Payload" "video_id" "string" (λ s a. record a { video_id = s })
    ∷ int_field "Payload" "chat_id" (λ n a. record a { chat_id = n })
    ∷ []

unfoldable pub encode_payload : Payload → Bytes
encode_payload p = onto "{\"mime\":" (
    quote p.mime (
      onto ",\"quality\":" (
        quote p.quality (
          onto ",\"video_id\":"
            (quote p.video_id (onto ",\"chat_id\":" (onto (itoa p.chat_id) "}")))))))

unfoldable pub payload_json : Codec Payload
unfolding encode_payload payload_fields
payload_json = record {
  marshal = λ p. ok (encode_payload p);
  unmarshal = unmarshal "bot.Payload" payload_fields;
}

encode_payload_test :
    encode_payload
      (record { mime = "video/mp4"; quality = ""; video_id = "v1"; chat_id = negsuc 41 })
    ≡ "{\"mime\":\"video/mp4\",\"quality\":\"\",\"video_id\":\"v1\",\"chat_id\":-42}"
unfolding encode_payload quote escaped escape itoa
encode_payload_test = refl

-- The number is one more than the greatest of 64 bits.
overflow_test :
    (payload_json.unmarshal zero_payload "{\"chat_id\":9223372036854775808}").1
    ≡ some (
        message
          "json: cannot unmarshal number 9223372036854775808 into Go struct field Payload.chat_id of type int64")
unfolding payload_json unmarshal parse
overflow_test = refl
