-- ===== src/Bot/Fetch/Publishing.antt =====
-- A fetch hands over exactly one message, and only as its last step.
use cribe.Prelude.{ℕ, ◌+◌, String, ◌==◌, ◌&&◌, ◌≡◌, arith, if◌then◌else◌}
use cribe.Errors.{Error}
use cribe.Exec.{is_ok}
use cribe.Bytes.{Bytes}
use cribe.Bot.Services.{queue_uploading, Payload, Format, Video, Services}
use cribe.Bot.World.{World}
use cribe.Bot.World.History.{published, published_to, told, filed}
use cribe.Db.{Metadata}
use cribe.Bot.Fetch.{store_if_missing, record_metadata, fetch_new, fetch_again, fetch_known, fetch}

module _ {S : Type 0} (d : Services S) (queue : ℕ) where
  fetch_again-published :
      (p : Payload) (v : Video) (encoded : Bytes) (e : Error) (w : World S)
      → let (r, w') = fetch_again d queue p v encoded e w in
        published w'.calls ≡ published w.calls + (if is_ok r then 1 else 0)
  unfolding fetch_again
  fetch_again-published p v encoded e w = ground arith

  fetch_known-published :
      (p : Payload) (v : Video) (encoded : Bytes) (m : Metadata) (w : World S)
      → let (r, w') = fetch_known d queue p v encoded m w in
        published w'.calls ≡ published w.calls + (if is_ok r then 1 else 0)
  unfolding fetch_known fetch_again
  fetch_known-published p v encoded m w = ground arith

  fetch_new-published :
      (p : Payload) (v : Video) (f : Format) (encoded : Bytes) (w : World S)
      → let (r, w') = fetch_new d queue p v f encoded w in
        published w'.calls ≡ published w.calls + (if is_ok r then 1 else 0)
  unfolding fetch_new store_if_missing record_metadata
  fetch_new-published p v f encoded w = ground arith

  -- Of the messages that a fetch publishes the broker takes one if the fetch returns no error, and
  -- none if it returns an error or panics.
  pub fetch-published :
      (p : Payload) (w : World S)
      → let (r, w') = fetch d queue p w in
        published w'.calls ≡ published w.calls + (if is_ok r then 1 else 0)
  unfolding fetch
  fetch-published p w = grind (arith, fetch_new-published, fetch_known-published)

  -- And it is for the queue of uploads.
  fetch_new-published_to :
      (key : String) (p : Payload) (v : Video) (f : Format) (encoded : Bytes) (w : World S)
      → let (r, w') = fetch_new d queue p v f encoded w in
        published_to key w'.calls
        ≡ published_to key w.calls + (if is_ok r && queue_uploading == key then 1 else 0)
  unfolding fetch_new store_if_missing record_metadata
  fetch_new-published_to key p v f encoded w = ground arith

  fetch_known-published_to :
      (key : String) (p : Payload) (v : Video) (encoded : Bytes) (m : Metadata) (w : World S)
      → let (r, w') = fetch_known d queue p v encoded m w in
        published_to key w'.calls
        ≡ published_to key w.calls + (if is_ok r && queue_uploading == key then 1 else 0)
  unfolding fetch_known fetch_again
  fetch_known-published_to key p v encoded m w = ground arith

  pub fetch-published_to :
      (key : String) (p : Payload) (w : World S)
      → let (r, w') = fetch d queue p w in
        published_to key w'.calls
        ≡ published_to key w.calls + (if is_ok r && queue_uploading == key then 1 else 0)
  unfolding fetch
  fetch-published_to key p w = grind (arith, fetch_new-published_to, fetch_known-published_to)

  -- jobs are left alone
  pub jobs-fetch : (p : Payload) (w : World S) → (fetch d queue p w).1.jobs ≡ w.jobs
  unfolding fetch fetch_new store_if_missing record_metadata fetch_known fetch_again
  jobs-fetch p w = ground arith

  -- A fetch sends no text.
  pub told-fetch : (p : Payload) (w : World S) → told (fetch d queue p w).1.calls ≡ told w.calls
  unfolding fetch fetch_new store_if_missing record_metadata fetch_known fetch_again
  told-fetch p w = ground arith

  -- A fetch saves no metadata with a file's id: only an upload does.
  pub filed-fetch : (p : Payload) (w : World S) → filed (fetch d queue p w).1.calls ≡ filed w.calls
  unfolding fetch fetch_new store_if_missing record_metadata fetch_known fetch_again
  filed-fetch p w = ground arith
