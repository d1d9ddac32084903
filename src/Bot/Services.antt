-- ===== src/Bot/Services.antt =====
-- internal/bot/contracts.go: the services that the dispatcher calls, all on one outside state `S`,
-- and the parts of the libraries' types that it reads.
use cribe.Prelude.{ℕ, String, Bool, Option, List}
use cribe.Prelude.Decimal.{ℤ}
use cribe.Errors.{Error}
use cribe.Exec.{Exec}
use cribe.Bytes.{Bytes, Codec}
use cribe.Storage.{Blob}
use cribe.Db.{MetadataDb}
use cribe.Session.{Backend}

-- const QueueFetching, const QueueUploading, const SendingMessageError
abbrev pub queue_fetching : String
queue_fetching = "fetching"

abbrev pub queue_uploading : String
queue_uploading = "uploading"

abbrev pub sending_message_error : String
sending_message_error = "Oops, something went wrong, try sending the link again"

pub record Payload : Type 0 where
  pub mime : String
  pub quality : String
  pub video_id : String
  pub chat_id : ℤ

abbrev pub zero_payload : Payload
zero_payload = record { mime = ""; quality = ""; video_id = ""; chat_id = ℤ.pos 0 }

-- youtube.Thumbnail, youtube.Format and youtube.Video. A duration counts nanoseconds.
pub record Thumbnail : Type 0 where
  pub url : String
  pub width : ℕ
  pub height : ℕ

pub record Format : Type 0 where
  pub mime_type : String
  pub quality : String
  pub audio_channels : ℕ
  pub width : ℤ
  pub height : ℤ

pub record Video : Type 0 where
  pub id : String
  pub title : String
  pub formats : List Format
  pub thumbnails : List Thumbnail
  pub duration : ℕ

-- A stream is the handle of an `io.ReadCloser`, which `io.ReadAll` reads to its end.
pub record YoutubeClient (S : Type 0) : Type 0 where
  pub get_video_context : String → Exec S Video
  pub get_stream_context : Video → Format → Exec S ℕ
  pub read_all : ℕ → Exec S Bytes
  pub with_audio_channels : List Format → List Format
  pub find_by_quality : List Format → String → Option Format

-- What is sent: a text, a text in Markdown, a video shared by its file's id with a caption.
pub data Chattable : Type 0 where
  new_message : ℤ → String → Chattable
  markdown_message : ℤ → String → Chattable
  new_video_share : ℤ → String → String → Chattable

pub record ApiResponse : Type 0 where
  pub ok : Bool
  pub result : Bytes
  pub error_code : ℤ
  pub description : String

-- tgbotapi.Message of an upload's answer, as far as it is read: the id of `Video`, which may be nil.
pub record UploadedMessage : Type 0 where
  pub video : Option String

-- The form values of an upload, and the file's name and bytes.
pub record UploadParams : Type 0 where
  pub chat_id : String
  pub width : String
  pub height : String
  pub duration : String
  pub thumb : String
  pub caption : String
  pub disable_notification : String

pub record TelegramSender (S : Type 0) : Type 0 where
  pub send : Chattable → Exec S (Unit {0})
  pub upload_file_with_context :
      String → UploadParams → String → String → Bytes → Exec S ApiResponse

-- A channel is a handle. Each message is published to the default exchange, as JSON. A close
-- returns an error or nil, `none`.
pub record AmqpConnection (S : Type 0) : Type 0 where
  pub chan : Exec S ℕ
  pub publish : ℕ → String → Bytes → Exec S (Unit {0})
  pub queue_declare : ℕ → String → Exec S (Unit {0})
  pub consume : ℕ → String → Exec S (List Bytes)
  pub close : ℕ → S → Option Error × S

-- `ctx_err` polls the context: `none` while it is not done, and then `ctx.Err()`.
pub record Services (S : Type 0) : Type 0 where
  pub metadata_db : MetadataDb S
  pub youtube_client : YoutubeClient S
  pub storage : Blob S
  pub broker : AmqpConnection S
  pub sender : TelegramSender S
  pub session_backend : Backend S
  pub ctx_err : S → Option Error × S
  pub now : S → ℕ × S
  pub message_codec : Codec UploadedMessage
  pub bucket : String
