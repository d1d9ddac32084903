-- ===== src/Bot/World.antt =====
-- The state that the dispatcher's methods run on: its own job list, everything outside, and the
-- calls that it has made so far, which the program does not keep and the theorems speak of.
pub mod History
use cribe.Prelude.{ℕ, String, Bool, Option, none, some, List, ◌∷◌}
use cribe.Errors.{Error}
use cribe.Exec.{Result, ok, err, Exec, is_ok}
use cribe.Bytes.{Bytes}
use cribe.Db.{Metadata}
use cribe.Bot.Services.{Payload, Video, Format, Chattable, ApiResponse, UploadParams, Services}

pub data JobKind : Type 0 where
  fetching uploading : JobKind

pub record Job : Type 0 where
  pub kind : JobKind
  pub payload : Payload
  pub open payload use *

-- A call with its arguments, and whether it succeeded.
pub data Call : Type 0 where
  get_video : String → Call
  get_stream : Video → Format → Call
  read_stream : ℕ → Call
  fetch_metadata : String → String → String → Call
  save_metadata : Metadata → Call
  create_object : String → Bytes → Call
  delete_object : String → Call
  get_object : String → Call
  send : Chattable → Call
  upload_file : UploadParams → String → Bytes → Call
  open_channel : Call
  close_channel : Call
  declare_queue : String → Call
  publish : String → Bytes → Call
  consume : String → Call

pub record World (S : Type 0) : Type 0 where
  pub outside : S
  pub jobs : List Job
  -- The latest call comes first.
  pub calls : List (Call × Bool)

module _ {S A : Type 0} where
  -- Runs outside, with no entry in the history.
  abbrev pub silent : Exec S A → Exec (World S) A
  silent m w = let (r, s) = m w.outside in (r, record w { outside = s })

  abbrev pub traced : Call → Exec S A → Exec (World S) A
  traced c m w =
      let (r, s) = m w.outside in (r, record w { outside = s; calls = (c, is_ok r) ∷ w.calls })

-- A Go `error` that may be nil, as a result.
module _ {S : Type 0} where
  abbrev unless_error : Option Error × S → Result (Unit {0}) × S
  unless_error (none, s) = (ok tt, s)
  unless_error (some e, s) = (err e, s)

module _ {S : Type 0} (d : Services S) where
  abbrev pub get_video_context : String → Exec (World S) Video
  get_video_context url = traced (get_video url) (d.youtube_client.get_video_context url)

  abbrev pub get_stream_context : Video → Format → Exec (World S) ℕ
  get_stream_context video format =
      traced (get_stream video format) (d.youtube_client.get_stream_context video format)

  abbrev pub read_all : ℕ → Exec (World S) Bytes
  read_all stream = traced (read_stream stream) (d.youtube_client.read_all stream)

  abbrev pub fetch_by_metadata : String → String → String → Exec (World S) Metadata
  fetch_by_metadata video_id mime quality =
      traced (fetch_metadata video_id mime quality)
        (d.metadata_db.fetch_by_metadata video_id mime quality)

  abbrev pub save : Metadata → Exec (World S) (Unit {0})
  save m = traced (save_metadata m) (d.metadata_db.save m)

  abbrev pub create : String → Bytes → Exec (World S) (Unit {0})
  create key contents =
      traced (create_object key contents) (d.storage.create_object d.bucket key contents)

  abbrev pub delete : String → Exec (World S) (Unit {0})
  delete key = traced (delete_object key) (d.storage.delete_object d.bucket key)

  abbrev pub get : String → Exec (World S) Bytes
  get key = traced (get_object key) (d.storage.get_object d.bucket key)

  abbrev pub send_chattable : Chattable → Exec (World S) (Unit {0})
  send_chattable c = traced (send c) (d.sender.send c)

  abbrev pub upload_file_with_context : UploadParams → String → Bytes → Exec (World S) ApiResponse
  upload_file_with_context params name bytes =
      traced (upload_file params name bytes)
        (d.sender.upload_file_with_context "sendVideo" params "video" name bytes)

  abbrev pub chan : Exec (World S) ℕ
  chan = traced open_channel d.broker.chan

  abbrev pub close : ℕ → Exec (World S) (Unit {0})
  close c = traced close_channel (λ s. unless_error (d.broker.close c s))

  abbrev pub queue_declare : ℕ → String → Exec (World S) (Unit {0})
  queue_declare c name = traced (declare_queue name) (d.broker.queue_declare c name)

  abbrev pub publish_to : ℕ → String → Bytes → Exec (World S) (Unit {0})
  publish_to c name body = traced (publish name body) (d.broker.publish c name body)

  abbrev pub consume_from : ℕ → String → Exec (World S) (List Bytes)
  consume_from c name = traced (consume name) (d.broker.consume c name)

  -- select { case <-ctx.Done(): return ctx.Err(); default: }
  abbrev pub check_done : Exec (World S) (Unit {0})
  check_done = silent (λ s. unless_error (d.ctx_err s))

  abbrev pub time_now : Exec (World S) ℕ
  time_now = silent (λ s. let (t, s') = d.now s in (ok t, s'))
