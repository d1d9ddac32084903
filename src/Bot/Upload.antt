-- ===== src/Bot/Upload.antt =====
-- internal/bot/upload.go: send a stored video to its chat, and remember the file's id.
pub mod Delivery
pub mod Effects
pub mod FileId
use cribe.Bot.Encoding.{payload_json}
use cribe.Prelude.{ℕ, String, ◌<>◌, Bool, Option, none, some, ◌==◌, not, if◌then◌else◌}
use cribe.Prelude.Decimal.{ℤ, itoa}
use cribe.Errors.{Error, message, record_not_found, object_not_found, errors_is}
use cribe.Exec.{Result, Exec, pure, fail, raise, lift, annotate, attempt, deferring, ◌>>=◌, ◌>>◌}
use cribe.Bytes.{Bytes}
use cribe.Db.{Metadata}
use cribe.Bot.Services.{
  Payload, ApiResponse, UploadedMessage, UploadParams, Services, new_video_share, zero_payload,
  queue_fetching,
}
use cribe.Bot.World.{
  World, fetch_by_metadata, save, delete, get, send_chattable, upload_file_with_context, chan,
  close, queue_declare, publish_to, check_done,
}

abbrev pub upload_params : Payload → Metadata → UploadParams
upload_params payload metadata = record {
  chat_id = itoa payload.chat_id;
  width = itoa metadata.params.width;
  height = itoa metadata.params.height;
  duration = itoa metadata.params.duration;
  thumb = metadata.params.thumb;
  caption = metadata.params.title;
  disable_notification = "true";
}

module _ {S : Type 0} (d : Services S) where
  -- The message goes back to the queue of fetches.
  abbrev fetch_first : ℕ → Bytes → Exec (World S) (Unit {0})
  fetch_first channel encoded = annotate "publish" (publish_to d channel queue_fetching encoded)

  abbrev share : Payload → Metadata → Exec (World S) (Unit {0})
  share payload metadata =
      annotate "send message with video"
        (send_chattable d (new_video_share payload.chat_id metadata.file_id metadata.params.title))

  -- `message.Video.FileID` dereferences a pointer that may be nil.
  abbrev file_id_of : Option String → Exec (World S) String
  file_id_of none = raise "invalid memory address or nil pointer dereference"
  file_id_of (some file_id) = pure file_id

  abbrev decoded : UploadedMessage × Option Error → Exec (World S) String
  decoded (m, none) = file_id_of m.video
  decoded (m, some e) = annotate "unmarshal upload file result raw message" (fail e)

  abbrev accept : ApiResponse → Exec (World S) String
  accept resp =
      if resp.ok
      then decoded (d.message_codec.unmarshal (record { video = none }) resp.result)
      else fail (
          message ("can not upload video: " <> (itoa resp.error_code <> (" " <> resp.description))))

  unfoldable pub send_file : Payload → Metadata → Bytes → Exec (World S) String
  send_file payload metadata file = do
    resp ←
        annotate "upload file"
          (upload_file_with_context d (upload_params payload metadata) metadata.params.title file)
    check_done d
    accept resp

  unfoldable pub upload_file : Payload → Metadata → Bytes → Exec (World S) (Unit {0})
  upload_file payload metadata file = do
    file_id ← send_file payload metadata file
    annotate "saving metadata" (save d (record metadata { file_id = file_id }))
    annotate "delete object from storage" (delete d metadata.video_id)

  unfoldable pub upload_known : ℕ → Payload → Bytes → Metadata → Exec (World S) (Unit {0})
  upload_known channel payload encoded metadata =
      if not (metadata.file_id == "")
      then share payload metadata
      else attempt (get d payload.video_id)
          (λ e.
            if errors_is e object_not_found
            then fetch_first channel encoded
            else annotate "get object from storage" (fail e))
          (upload_file payload metadata)

  unfoldable pub upload_with : ℕ → Payload → Bytes → Exec (World S) (Unit {0})
  upload_with channel payload encoded = do
    annotate "can not declare broker queue" (queue_declare d channel queue_fetching)
    attempt (fetch_by_metadata d payload.video_id payload.mime payload.quality)
        (λ e.
          if errors_is e record_not_found
          then fetch_first channel encoded
          else annotate "fetching metadata" (fail e))
        (upload_known channel payload encoded)

  unfoldable pub upload : Payload → Exec (World S) (Unit {0})
  upload payload = do
    encoded ← annotate "unmarshal" (
        lift (
          payload_json.marshal
            (record zero_payload { video_id = payload.video_id; chat_id = payload.chat_id })))
    channel ← annotate "can not create broker channel" (chan d)
    deferring (close d channel) (upload_with channel payload encoded)
