-- ===== src/Bot/Upload/Delivery.antt =====
-- Which chat an upload sends a video to.
use cribe.Prelude.{
  ℕ, ◌+◌, String, Bool, false, ◌≡◌, ◌≢◌, arith, eq_refl, eq_iff, count, ◌==◌, ◌&&◌, ◌≤◌,
  if◌then◌else◌,
}
use cribe.Prelude.Decimal.{itoa}
use cribe.Exec.{ok}
use cribe.Bytes.{Bytes}
use cribe.Bot.Services.{Payload, Services, new_video_share}
use cribe.Bot.World.{World, Call, send, upload_file}
use cribe.Bot.World.History.{History, published}
use cribe.Bot.Upload
use cribe.Bot.Upload.{send_file, upload_known, upload_with, upload}

-- A video that Telegram was asked to send to the chat, by its file's id or as a file, without an error.
abbrev pub is_video : String → Call × Bool → Bool
is_video chat (send (new_video_share to file_id caption), done) = done && itoa to == chat
is_video chat (upload_file params name file, done) = done && params.chat_id == chat
is_video chat (c, done) = false

abbrev pub videos_to : String → History → ℕ
videos_to chat = count (is_video chat)

module _ {S : Type 0} (d : Services S) where
  upload_with-delivers :
      (c : ℕ) (p : Payload) (encoded : Bytes) (w : World S)
      → (upload_with d c p encoded w).0 ≡ ok tt
      → let chat = itoa p.chat_id in
        let w' = (upload_with d c p encoded w).1 in
        published w'.calls + videos_to chat w'.calls
        ≡ published w.calls + videos_to chat w.calls + 1
  unfolding upload_with upload_known Upload.upload_file send_file
  upload_with-delivers c p encoded w h = ground (arith, eq_refl (itoa p.chat_id))

  -- An upload that returns no error has either made the broker take a message, or sent exactly one
  -- video to the chat of the request.
  pub upload-delivers :
      (p : Payload) (w : World S)
      → (upload d p w).0 ≡ ok tt
      → let chat = itoa p.chat_id in
        let w' = (upload d p w).1 in
        published w'.calls + videos_to chat w'.calls
        ≡ published w.calls + videos_to chat w.calls + 1
  unfolding upload
  upload-delivers p w h = grind (arith, upload_with-delivers)

  upload_with-videos :
      (c : ℕ) (p : Payload) (encoded : Bytes) (chat : String) (w : World S)
      → videos_to chat (upload_with d c p encoded w).1.calls
        ≤ videos_to chat w.calls + (if itoa p.chat_id == chat then 1 else 0)
  unfolding upload_with upload_known Upload.upload_file send_file
  upload_with-videos c p encoded chat w = ground arith

  -- Whatever fails, an upload sends at most one video, and that to the chat of the request.
  pub upload-videos :
      (p : Payload) (chat : String) (w : World S)
      → videos_to chat (upload d p w).1.calls
        ≤ videos_to chat w.calls + (if itoa p.chat_id == chat then 1 else 0)
  unfolding upload
  upload-videos p chat w = grind (arith, upload_with-videos)

  upload_with-elsewhere :
      (c : ℕ) (p : Payload) (encoded : Bytes) (chat : String) (w : World S)
      → itoa p.chat_id ≢ chat
      → videos_to chat (upload_with d c p encoded w).1.calls ≡ videos_to chat w.calls
  unfolding upload_with upload_known Upload.upload_file send_file
  upload_with-elsewhere c p encoded chat w h = ground (arith, eq_iff (itoa p.chat_id) chat)

  -- Whatever fails, an upload sends no video to another chat.
  pub upload-elsewhere :
      (p : Payload) (chat : String) (w : World S)
      → itoa p.chat_id ≢ chat
      → videos_to chat (upload d p w).1.calls ≡ videos_to chat w.calls
  unfolding upload
  upload-elsewhere p chat w h = grind (arith, upload_with-elsewhere)
