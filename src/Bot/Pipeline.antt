-- ===== src/Bot/Pipeline.antt =====
-- internal/bot/fetch.go and internal/bot/upload.go together, over a database and a storage that keep
-- what they are given.
pub mod Uploading
pub mod Progress
pub mod Resuming
pub mod Delivery
pub mod Journey
use cribe.Prelude.{
  ℕ, String, Bool, true, false, Option, none, some, ◌≡◌, sym, ap, ◌∙◌, ◌==◌, ◌||◌, not,
}
use cribe.Errors.{Error, record_not_found, object_not_found, errors_is}
use cribe.Exec.{ok, err}
use cribe.Bytes.{Bytes}
use cribe.Db.{Metadata}
use cribe.Db.Table.{Rows, put, IsTable}
use cribe.Storage.Keeping.{IsKeepingBlob}
use cribe.Bot.Services.{Payload, Video, Format, Services}

-- The rows of a video, type and quality, and the objects of the bot's bucket.
pub record View : Type 0 where
  pub row : Rows
  pub object : String → Option Bytes

-- What a pipeline relies on: a table of metadata, a storage that keeps its objects, and that no call
-- changes more than it is for. Any call may fail; how a lookup may fail is `OnlyMissing`.
pub record KeepsStores {S : Type 0} (d : Services S) : Type 1 where
  pub view : S → View
  pub table : IsTable d.metadata_db
  pub blob : IsKeepingBlob d.storage
  pub view-row : (s : S) → (view s).row ≡ table.rows s
  pub view-object :
      (s : S) (k : String) → (view s).object k ≡ blob.content s (blob.place d.bucket k)
  pub fetch-view :
      (v m q : String) (s : S) → view (d.metadata_db.fetch_by_metadata v m q s).1 ≡ view s
  pub save-object :
      (x : Metadata) (s : S) → (view (d.metadata_db.save x s).1).object ≡ (view s).object
  pub get-view : (k : String) (s : S) → view (d.storage.get_object d.bucket k s).1 ≡ view s
  pub create-row :
      (k : String) (b : Bytes) (s : S)
      → (view (d.storage.create_object d.bucket k b s).1).row ≡ (view s).row
  pub video-view :
      (url : String) (s : S) → view (d.youtube_client.get_video_context url s).1 ≡ view s
  pub stream-view :
      (v : Video) (f : Format) (s : S) → view (d.youtube_client.get_stream_context v f s).1 ≡ view s
  pub read-view : (h : ℕ) (s : S) → view (d.youtube_client.read_all h s).1 ≡ view s
  pub publish-view :
      (c : ℕ) (q : String) (b : Bytes) (s : S) → view (d.broker.publish c q b s).1 ≡ view s
  pub chan-view : (s : S) → view (d.broker.chan s).1 ≡ view s
  pub declare-view : (c : ℕ) (q : String) (s : S) → view (d.broker.queue_declare c q s).1 ≡ view s
  pub done-view : (s : S) → view (d.ctx_err s).1 ≡ view s
  pub now-view : (s : S) → view (d.now s).1 ≡ view s

-- A storage whose lookups fail only for want of the object. Without it a fetch may return no error
-- although it has stored nothing: it drops every other error of a lookup.
abbrev pub OnlyMissing : {S : Type 0} → Services S → Type 0
OnlyMissing {S} d =
    (k : String) (e : Error) (s : S)
    → (d.storage.get_object d.bucket k s).0 ≡ err e
    → errors_is e object_not_found ≡ true

module _ {S : Type 0} (d : Services S) (keeps : KeepsStores d) where
  pub fetch-ok :
      (v m q : String) (x : Metadata) (s : S)
      → (d.metadata_db.fetch_by_metadata v m q s).0 ≡ ok x
      → (keeps.view s).row v m q ≡ some x
  fetch-ok v m q x s h = rw (keeps.view-row s) (keeps.table.fetch-ok v m q x s h)

  pub fetch-absent :
      (v m q : String) (e : Error) (s : S)
      → (d.metadata_db.fetch_by_metadata v m q s).0 ≡ err e
      → errors_is e record_not_found ≡ true
      → (keeps.view s).row v m q ≡ none
  fetch-absent v m q e s h n = rw (keeps.view-row s) (keeps.table.fetch-absent v m q e s h n)

  pub save-ok :
      (x : Metadata) (s : S)
      → (d.metadata_db.save x s).0 ≡ ok tt
      → (keeps.view (d.metadata_db.save x s).1).row ≡ put x (keeps.view s).row
  save-ok x s h =
      keeps.view-row (d.metadata_db.save x s).1
      ∙ keeps.table.save-ok x s h
      ∙ ap (put x) (sym (keeps.view-row s))

  pub get-ok :
      (k : String) (b : Bytes) (s : S)
      → (d.storage.get_object d.bucket k s).0 ≡ ok b
      → (keeps.view s).object k ≡ some b
  get-ok k b s h = keeps.view-object s k ∙ keeps.blob.get-ok d.bucket k b s h

  pub get-absent :
      OnlyMissing d
      → (k : String) (e : Error) (s : S) → (d.storage.get_object d.bucket k s).0 ≡ err e
      → (errors_is e object_not_found ≡ true) × ((keeps.view s).object k ≡ none)
  get-absent lookups k e s h =
      let missing = lookups k e s h in
      (missing, keeps.view-object s k ∙ keeps.blob.get-absent d.bucket k e s h missing)

  pub create-ok :
      (k : String) (b : Bytes) (s : S)
      → (d.storage.create_object d.bucket k b s).0 ≡ ok tt
      → (keeps.view (d.storage.create_object d.bucket k b s).1).object k ≡ some b
  create-ok k b s h =
      keeps.view-object (d.storage.create_object d.bucket k b s).1 k
      ∙ keeps.blob.create-ok d.bucket k b s h

abbrev pub is_some {ℓ} : {A : Type ℓ} → Option A → Bool
is_some none = false
is_some (some a) = true

abbrev suffices : Option Metadata → Option Bytes → Bool
suffices none object = false
suffices (some m) object = not (m.file_id == "") || is_some object

-- The stores hold what an upload of this payload needs: the row, and where the row has no file's id
-- the object.
abbrev pub is_ready : View → Payload → Bool
is_ready view p = suffices (view.row p.video_id p.mime p.quality) (view.object p.video_id)
