-- ===== src/Bot/Fetch/Storing.antt =====
-- What a fetch hands over, and that the storage holds it.
use cribe.Bot.Encoding.{payload_json, encode_payload}
use cribe.Prelude.{ℕ, String, true, false, some, ◌≡◌, arith, inl, inr, Option-cases, eq_refl}
use cribe.Errors.{Error, object_not_found, errors_is}
use cribe.Exec.{◌>>=◌, ok, err, Result-cases}
use cribe.Bytes.{Bytes}
use cribe.Bot.Services.{Payload, Format, Video, Services, queue_uploading}
use cribe.Bot.World.{World, publish, check_done, get}
use cribe.Bot.World.History.{created, is_confirmed, latest}
use cribe.Db.{Metadata}
use cribe.Bot.Fetch.{
  find_format, hand_over, download, store_if_missing, record_metadata, fetch_new, fetch_again,
  fetch_known, fetch,
}

module _ {S : Type 0} (d : Services S) (queue : ℕ) where
  -- For a new video whose download is there and whose context is live, a lookup that fails for another
  -- reason than a missing object is taken for a success: the fetch goes on from the failed lookup with
  -- saving the metadata and handing the message over, its result and what it leaves are those of
  -- these two, and no object is created.
  pub fetch_new-dropped :
      (p : Payload) (v : Video) (f : Format) (encoded buf : Bytes) (w : World S) (e : Error)
      → (download d queue v f w).0 ≡ ok buf
      → let w1 = (download d queue v f w).1 in
        let w2 = (check_done d w1).1 in
        let w3 = (get d v.id w2).1 in
        (check_done d w1).0 ≡ ok tt
        → (get d v.id w2).0 ≡ err e
        → errors_is e object_not_found ≡ false
        → (fetch_new d queue p v f encoded w
            ≡ (record_metadata d queue p v f >>= λ _. hand_over d queue encoded) w3)
          × (created (fetch_new d queue p v f encoded w).1.calls ≡ created w.calls)
  unfolding fetch_new store_if_missing record_metadata
  fetch_new-dropped p v f encoded buf w e got live fails other = (ground arith, ground arith)

  module _
      (only_missing : (key : String) (s : S) (e : Error)
        → (d.storage.get_object d.bucket key s).0 ≡ err e
        → errors_is e object_not_found ≡ true) where
    -- If the storage's lookups fail only for want of the object, then a fetch for a new video that
    -- returns no error has seen the object in the storage, under the id that YouTube gave.
    pub fetch_new-confirmed :
        (p : Payload) (v : Video) (f : Format) (encoded : Bytes) (w : World S)
        → (fetch_new d queue p v f encoded w).0 ≡ ok tt
        → is_confirmed v.id (fetch_new d queue p v f encoded w).1.calls ≡ true
    unfolding fetch_new store_if_missing record_metadata
    fetch_new-confirmed p v f encoded w h = grind (arith, only_missing, eq_refl v.id)

  -- A fetch for a known video without a file's id that returns no error has, whatever errors the
  -- storage gives, seen the object in the storage under the id of the request.
  pub fetch_known-confirmed :
      (p : Payload) (v : Video) (encoded : Bytes) (m : Metadata) (w : World S)
      → m.file_id ≡ ""
      → (fetch_known d queue p v encoded m w).0 ≡ ok tt
      → is_confirmed p.video_id (fetch_known d queue p v encoded m w).1.calls ≡ true
  unfolding fetch_known fetch_again
  fetch_known-confirmed p v encoded m w none_yet h =
      ground (arith, eq_refl p.video_id, eq_refl m.file_id)

  fetch_new-latest :
      (p : Payload) (v : Video) (f : Format) (encoded : Bytes) (w : World S)
      → (fetch_new d queue p v f encoded w).0 ≡ ok tt
      → latest (fetch_new d queue p v f encoded w).1.calls
        ≡ some (publish queue_uploading encoded, true)
  unfolding fetch_new store_if_missing record_metadata
  fetch_new-latest p v f encoded w h = ground arith

  fetch_known-latest :
      (p : Payload) (v : Video) (encoded : Bytes) (m : Metadata) (w : World S)
      → (fetch_known d queue p v encoded m w).0 ≡ ok tt
      → latest (fetch_known d queue p v encoded m w).1.calls
        ≡ some (publish queue_uploading encoded, true)
  unfolding fetch_known fetch_again
  fetch_known-latest p v encoded m w h = ground arith

  -- A fetch that returns no error ends with a publish to the queue of uploads, which the broker took.
  -- The message is the payload with the format that was found: its type and its quality are filled
  -- in, its video and its chat are those of the request.
  pub fetch-hands_over :
      (p : Payload) (w : World S)
      → (fetch d queue p w).0 ≡ ok tt
      → (v : Video) × (f : Format) × ((d.youtube_client.get_video_context p.video_id w.outside).0
          ≡ ok v)
        × (find_format d queue v ≡ some f)
        × (latest (fetch d queue p w).1.calls
            ≡ some (
              publish queue_uploading
                  (encode_payload (record p { mime = f.mime_type; quality = f.quality })),
              true,
            ))
  unfolding fetch payload_json
  fetch-hands_over p w h =
      elim (Result-cases (d.youtube_client.get_video_context p.video_id w.outside).0) [
        | inl (v, e) ↦ elim (Option-cases (find_format d queue v)) [
          | inl n ↦ absurd (ground arith)
          | inr (f, g) ↦ (v, f, e, g, grind (arith, fetch_new-latest, fetch_known-latest))
        ]
        | inr (inl (x, e)) ↦ absurd (ground arith)
        | inr (inr (x, e)) ↦ absurd (ground arith)
      ]
