-- ===== src/Bot/Consumers/Videos.antt =====
-- How many videos a worker of uploads sends to a chat.
use cribe.Prelude.{ℕ, ◌+◌, ◌≤◌, String, Option, none, some, arith, if◌then◌else◌, ◌==◌}
use cribe.Prelude.Decimal.{itoa}
use cribe.Errors.{Error}
use cribe.Bytes.{Bytes}
use cribe.Bot.Services.{Payload, Services, zero_payload, queue_uploading}
use cribe.Bot.World.{World, uploading}
use cribe.Bot.Encoding.{payload_json}
use cribe.Bot.Jobs.{add_job, delete_job}
use cribe.Bot.Upload.Delivery.{videos_to, upload-videos}
use cribe.Bot.Consumers.{
  report, give_up, upload_decoded, handle_uploading, consuming_video_uploading,
}
use cribe.Bot.Consumers.Bookkeeping.{with_job}
use cribe.Bot.Consumers.Queues.{delivered, total, each-adds}

abbrev asks : String → Payload × Option Error → ℕ
asks chat (p, none) = if itoa p.chat_id == chat then 1 else 0
asks chat (p, some e) = 0

-- One for a message that decodes to a request of the chat.
abbrev pub asks_for : String → Bytes → ℕ
asks_for chat body = asks chat (payload_json.unmarshal zero_payload body)

module _ {S : Type 0} (d : Services S) where
  upload_decoded-asks :
      (chat : String) (o : Payload × Option Error) (w : World S)
      → videos_to chat (upload_decoded d o w).1.calls ≤ videos_to chat w.calls + asks chat o
  unfolding upload_decoded add_job delete_job give_up report
  upload_decoded-asks chat (p, some e) w = ground arith
  upload_decoded-asks chat (p, none) w =
      let sent = upload-videos d p chat (with_job d uploading p w) in grind arith

  handle_uploading-asks_for :
      (chat : String) (body : Bytes) (w : World S)
      → videos_to chat (handle_uploading d body w).1.calls
        ≤ videos_to chat w.calls + asks_for chat body
  unfolding handle_uploading
  handle_uploading-asks_for chat body w =
      upload_decoded-asks chat (payload_json.unmarshal zero_payload body) w

  -- Whatever its queue delivers and whatever fails, a worker of uploads sends a chat at most one video
  -- for each message that decodes to a request of this chat, and none for any other message.
  pub consuming_video_uploading-videos :
      (chat : String) (w : World S)
      → videos_to chat (consuming_video_uploading d w).1.calls
        ≤ videos_to chat w.calls + total d (asks_for chat) (delivered d queue_uploading w.outside)
  unfolding consuming_video_uploading
  consuming_video_uploading-videos chat w = grind (
    arith,
    each-adds d (λ (u : World S). videos_to chat u.calls) (handle_uploading d) (asks_for chat)
        (handle_uploading-asks_for chat),
  )
