-- ===== src/Bot/Fetch.antt =====
-- internal/bot/fetch.go: download a video, keep it in the storage, and hand it over for upload.
pub mod Publishing
pub mod Storing
use cribe.Bot.Encoding.{payload_json}
use cribe.Prelude.{ℕ, String, Bool, Option, none, some, List, ◌/◌, ◌==◌, if◌then◌else◌}
use cribe.Prelude.Decimal.{ℤ, pos}
use cribe.Errors.{Error, message, wrap, record_not_found, object_not_found, errors_is}
use cribe.Exec.{Result, Exec, pure, fail, lift, annotate, attempt, ◌>>=◌, ◌>>◌}
use cribe.Bytes.{Bytes}
use cribe.Db.{Metadata}
use cribe.Bot.Services.{Payload, Format, Video, Services, queue_uploading}
use cribe.Bot.World.{
  World, get_video_context, get_stream_context, read_all, fetch_by_metadata, save, create, get,
  publish_to, check_done, time_now,
}
use cribe.Bot.Thumbnails.{choose_thumb}

-- int(video.Duration.Seconds()), which is exact for videos of less than 2 ^ 22 seconds
abbrev seconds : ℕ → ℤ
seconds nanoseconds = pos (nanoseconds / 1000000000)

module _ {S : Type 0} (d : Services S) (queue : ℕ) where
  abbrev or_missing : Option Format → Error → Exec (World S) Format
  or_missing none e = fail e
  or_missing (some format) e = pure format

  abbrev pub find_format : Video → Option Format
  find_format video =
      let client = d.youtube_client in
      client.find_by_quality (client.with_audio_channels video.formats) "hd720"

  abbrev pub hand_over : Bytes → Exec (World S) (Unit {0})
  hand_over encoded =
      annotate "publish to uploading queue" (publish_to d queue queue_uploading encoded)

  abbrev pub download : Video → Format → Exec (World S) Bytes
  download video format = do
    stream ← annotate "get video stream" (get_stream_context d video format)
    annotate "real stream" (read_all d stream)

  -- Only an object that is not found is created; any other error of the lookup is dropped.
  unfoldable pub store_if_missing : String → Bytes → Exec (World S) (Unit {0})
  store_if_missing key buf =
      attempt (get d key)
        (λ e.
          if errors_is e object_not_found
          then annotate "create object to storage" (create d key buf)
          else pure tt)
        (λ _. pure tt)

  unfoldable pub record_metadata : Payload → Video → Format → Exec (World S) (Unit {0})
  unfolding choose_thumb
  record_metadata payload video format = do
    created ← time_now d
    updated ← time_now d
    annotate "saving metadata" (
        save d (record {
          video_id = payload.video_id;
          quality = payload.quality;
          mime = payload.mime;
          file_id = "";
          params = record {
            title = video.title;
            width = format.width;
            height = format.height;
            duration = seconds video.duration;
            thumb = choose_thumb video.thumbnails;
          };
          created_at = created;
          updated_at = updated;
        }))

  -- The branch with no metadata yet.
  unfoldable pub fetch_new : Payload → Video → Format → Bytes → Exec (World S) (Unit {0})
  fetch_new payload video format encoded = do
    buf ← download video format
    check_done d
    store_if_missing video.id buf
    record_metadata payload video format
    hand_over encoded

  -- The object of known metadata is gone: download it again. `e` is the error of the lookup.
  unfoldable pub fetch_again : Payload → Video → Bytes → Error → Exec (World S) (Unit {0})
  fetch_again payload video encoded e = do
    format ← or_missing (find_format video) (wrap "video format not found" e)
    buf ← download video format
    annotate "create object to storage" (create d payload.video_id buf)
    hand_over encoded

  -- The branch with metadata.
  unfoldable pub fetch_known : Payload → Video → Bytes → Metadata → Exec (World S) (Unit {0})
  fetch_known payload video encoded metadata =
      if metadata.file_id == ""
      then attempt (get d payload.video_id)
          (λ e.
            if errors_is e object_not_found
            then fetch_again payload video encoded e
            else annotate "get object from storage" (fail e))
          (λ _. hand_over encoded)
      else hand_over encoded

  unfoldable pub fetch : Payload → Exec (World S) (Unit {0})
  fetch payload = do
    video ← annotate "parsing video metadata" (get_video_context d payload.video_id)
    format ← or_missing (find_format video) (message "video format not found")
    let payload' = record payload { mime = format.mime_type; quality = format.quality }
    encoded ← annotate "marshal fetching payload" (lift (payload_json.marshal payload'))
    attempt (fetch_by_metadata d payload'.video_id payload'.mime payload'.quality)
        (λ e.
          if errors_is e record_not_found
          then fetch_new payload' video format encoded
          else annotate "fetch metadata" (fail e))
        (fetch_known payload' video encoded)
