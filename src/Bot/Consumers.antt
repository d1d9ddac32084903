-- ===== src/Bot/Consumers.antt =====
-- internal/bot/server.go: the workers that take messages from the two queues. The messages of a
-- worker are the list that its delivery channel gives before it is closed.
pub mod Bookkeeping
pub mod Loops
pub mod Answers
pub mod Videos
pub mod Queues
pub mod Unreadable
use cribe.Bot.Encoding.{payload_json}
use cribe.Prelude.{ℕ, Option, none, some, List, [], ◌∷◌, if◌then◌else◌}
use cribe.Prelude.Decimal.{ℤ}
use cribe.Errors.{Error, canceled, errors_is}
use cribe.Exec.{Exec, pure, annotate, attempt, deferring, ◌>>=◌, ◌>>◌}
use cribe.Bytes.{Bytes}
use cribe.Bot.Services.{
  Payload, Services, new_message, zero_payload, queue_fetching, queue_uploading,
  sending_message_error,
}
use cribe.Bot.World.{
  World, fetching, uploading, send_chattable, chan, close, queue_declare, consume_from,
}
use cribe.Bot.Jobs.{add_job, delete_job}
use cribe.Bot.Fetch.{fetch}
use cribe.Bot.Upload.{upload}

module _ {S : Type 0} (d : Services S) where
  -- Tells the chat that something went wrong; if that fails too, it is only logged.
  unfoldable pub report : ℤ → Exec (World S) (Unit {0})
  report chat_id =
      attempt (send_chattable d (new_message chat_id sending_message_error)) (λ e. pure tt)
        (λ _. pure tt)

  -- After an error: a cancelled context is not reported. The job stays in the list.
  unfoldable pub give_up : Payload → Error → Exec (World S) (Unit {0})
  give_up payload e = if errors_is e canceled then pure tt else report payload.chat_id

  unfoldable pub fetch_decoded : ℕ → Payload × Option Error → Exec (World S) (Unit {0})
  fetch_decoded channel (payload, some e) = report payload.chat_id
  fetch_decoded channel (payload, none) = do
    add_job fetching payload
    attempt (fetch d channel payload) (give_up payload) (λ _. delete_job payload.video_id fetching)

  -- The body of the loop of `consumingVideoFetching`.
  unfoldable pub handle_fetching : ℕ → Bytes → Exec (World S) (Unit {0})
  handle_fetching channel body = fetch_decoded channel (payload_json.unmarshal zero_payload body)

  unfoldable pub upload_decoded : Payload × Option Error → Exec (World S) (Unit {0})
  upload_decoded (payload, some e) =
      if errors_is e canceled then pure tt else report payload.chat_id
  upload_decoded (payload, none) = do
    add_job uploading payload
    attempt (upload d payload) (give_up payload) (λ _. delete_job payload.video_id uploading)

  -- The body of the loop of `consumingVideoUploading`.
  unfoldable pub handle_uploading : Bytes → Exec (World S) (Unit {0})
  handle_uploading body = upload_decoded (payload_json.unmarshal zero_payload body)

  -- for message := range messages { … }
  unfoldable pub each : (Bytes → Exec (World S) (Unit {0})) → List Bytes → Exec (World S) (Unit {0})
  each body [] = pure tt
  each body (message ∷ messages) = do body message; each body messages

  unfoldable pub consuming_video_fetching : Exec (World S) (Unit {0})
  consuming_video_fetching = do
    channel ← annotate "can not create broker channel" (chan d)
    deferring (close d channel) (do
      annotate "can not declare broker queue" (queue_declare d channel queue_fetching)
      messages ← annotate "amqp consume fetching" (consume_from d channel queue_fetching)
      each (handle_fetching channel) messages)

  unfoldable pub consuming_video_uploading : Exec (World S) (Unit {0})
  consuming_video_uploading = do
    channel ← annotate "can not create broker channel" (chan d)
    deferring (close d channel) (do
      annotate "can not declare broker queue" (queue_declare d channel queue_uploading)
      messages ← annotate "amqp consume uploading" (consume_from d channel queue_uploading)
      each handle_uploading messages)
