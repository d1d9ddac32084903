-- ===== src/Bot/Consumers/Unreadable.antt =====
-- What the workers do with a message that is not the JSON of a payload.
use cribe.Prelude.{ℕ, none, some, ◌∷◌, ◌≡◌, subst, refl, arith}
use cribe.Prelude.Decimal.{ℤ, pos}
use cribe.Errors.{Error}
use cribe.Exec.{is_ok}
use cribe.Bytes.{Bytes}
use cribe.Json.Scanner.{parse}
use cribe.Json.Fields.{unmarshal, syntax_error}
use cribe.Json.Fields.Errors.{IsPlain, text_field-IsPlain, int_field-IsPlain, unmarshal-IsPlain}
use cribe.Bot.Services.{Payload, zero_payload, Services, new_message, sending_message_error}
use cribe.Bot.World.{World, send}
use cribe.Bot.Encoding.{payload_fields, payload_json}
use cribe.Bot.Consumers.{report, fetch_decoded, handle_fetching, upload_decoded, handle_uploading}

-- No error of a payload's decoding is `context.Canceled`.
pub payload_json-IsPlain :
    (target : Payload) (body : Bytes) → IsPlain (payload_json.unmarshal target body).1
unfolding payload_json payload_fields
payload_json-IsPlain target body = unmarshal-IsPlain "bot.Payload" payload_fields target body (
  text_field-IsPlain "Payload" "mime" "string" (λ s a. record a { mime = s }),
  (
    text_field-IsPlain "Payload" "quality" "string" (λ s a. record a { quality = s }),
    (
      text_field-IsPlain "Payload" "video_id" "string" (λ s a. record a { video_id = s }),
      (int_field-IsPlain "Payload" "chat_id" (λ n a. record a { chat_id = n }), tt),
    ),
  ),
)

no_json :
    (body : Bytes)
    → parse body ≡ none
    → payload_json.unmarshal zero_payload body ≡ (zero_payload, some syntax_error)
unfolding payload_json unmarshal
no_json body h = rw h refl

module _ {S : Type 0} (d : Services S) where
  -- The world after one text to the chat.
  abbrev pub apologised : ℤ → World S → World S
  apologised chat w =
      let c = new_message chat sending_message_error in
      let (r, s) = d.sender.send c w.outside in
      record w { outside = s; calls = (send c, is_ok r) ∷ w.calls }

  report-apologised : (chat : ℤ) (w : World S) → (report d chat w).1 ≡ apologised chat w
  unfolding report
  report-apologised chat w = ground arith

  -- A message that does not decode to a payload has one effect, whichever worker takes it: a text to
  -- the chat that the decoding had found before it failed. No job is kept of it, and no service but
  -- the sender is asked.
  pub handle-undecoded :
      (c : ℕ) (body : Bytes) (p : Payload) (e : Error) (w : World S)
      → payload_json.unmarshal zero_payload body ≡ (p, some e)
      → ((handle_fetching d c body w).1 ≡ apologised p.chat_id w)
        × ((handle_uploading d body w).1 ≡ apologised p.chat_id w)
  unfolding handle_fetching fetch_decoded handle_uploading upload_decoded
  handle-undecoded c body p e w h =
      let plain : IsPlain (some e) =
        subst (λ x. IsPlain x.1) h (payload_json-IsPlain zero_payload body) in
      (rw h (report-apologised p.chat_id w), rw h (rw plain (report-apologised p.chat_id w)))

  -- Of a message that is no JSON at all the decoding finds no chat: the text goes to the chat whose
  -- id is 0.
  pub handle-unreadable :
      (c : ℕ) (body : Bytes) (w : World S)
      → parse body ≡ none
      → ((handle_fetching d c body w).1 ≡ apologised (pos 0) w)
        × ((handle_uploading d body w).1 ≡ apologised (pos 0) w)
  handle-unreadable c body w h =
      handle-undecoded c body zero_payload syntax_error w (no_json body h)
