-- ===== src/Bot/Upload/Effects.antt =====
-- What an upload leaves behind.
use cribe.Prelude.{ℕ, ◌+◌, true, ◌≡◌, arith, eq_refl, if◌then◌else◌}
use cribe.Exec.{is_ok}
use cribe.Bytes.{Bytes}
use cribe.Db.{Metadata}
use cribe.Bot.Services.{Payload, Services}
use cribe.Bot.World.{World}
use cribe.Bot.World.History.{settled, concluded, is_guarded, told}
use cribe.Bot.Upload.{send_file, upload_file, upload_known, upload_with, upload}

module _ {S : Type 0} (d : Services S) where
  upload_with-settled :
      (c : ℕ) (p : Payload) (encoded : Bytes) (w : World S)
      → let (r, w') = upload_with d c p encoded w in
        settled w'.calls ≡ settled w.calls + (if is_ok r then 1 else 0)
  unfolding upload_with upload_known upload_file send_file
  upload_with-settled c p encoded w = ground arith

  -- An upload that returns no error has settled its message in exactly one way: it has shared
  -- one video by its file's id, handed one message to a queue, or deleted one object. One that fails
  -- or panics has done none of these.
  pub upload-settled :
      (p : Payload) (w : World S)
      → let (r, w') = upload d p w in
        settled w'.calls ≡ settled w.calls + (if is_ok r then 1 else 0)
  unfolding upload
  upload-settled p w = grind (arith, upload_with-settled)

  upload_with-concluded :
      (c : ℕ) (p : Payload) (encoded : Bytes) (w : World S)
      → let (r, w') = upload_with d c p encoded w in
        concluded w'.calls ≡ concluded w.calls + (if is_ok r then 1 else 0)
  unfolding upload_with upload_known upload_file send_file
  upload_with-concluded c p encoded w = ground arith

  -- A message that it hands to a queue asks for a fetch.
  pub upload-concluded :
      (p : Payload) (w : World S)
      → let (r, w') = upload d p w in
        concluded w'.calls ≡ concluded w.calls + (if is_ok r then 1 else 0)
  unfolding upload
  upload-concluded p w = grind (arith, upload_with-concluded)

  upload_file-guarded :
      (p : Payload) (m : Metadata) (file : Bytes) (w : World S)
      → is_guarded w.calls ≡ true
      → is_guarded (upload_file d p m file w).1.calls ≡ true
  unfolding upload_file send_file
  upload_file-guarded p m file w h = ground (arith, eq_refl m.video_id)

  upload_known-guarded :
      (c : ℕ) (p : Payload) (encoded : Bytes) (m : Metadata) (w : World S)
      → is_guarded w.calls ≡ true
      → is_guarded (upload_known d c p encoded m w).1.calls ≡ true
  unfolding upload_known
  upload_known-guarded c p encoded m w h = grind (arith, upload_file-guarded)

  upload_with-guarded :
      (c : ℕ) (p : Payload) (encoded : Bytes) (w : World S)
      → is_guarded w.calls ≡ true
      → is_guarded (upload_with d c p encoded w).1.calls ≡ true
  unfolding upload_with
  upload_with-guarded c p encoded w h = grind (arith, upload_known-guarded)

  -- An upload asks the storage to delete an object only right after the metadata of that object's
  -- video were saved.
  pub upload-guarded :
      (p : Payload) (w : World S)
      → is_guarded w.calls ≡ true
      → is_guarded (upload d p w).1.calls ≡ true
  unfolding upload
  upload-guarded p w h = grind (arith, upload_with-guarded)

  -- The job list is left alone.
  pub jobs-upload : (p : Payload) (w : World S) → (upload d p w).1.jobs ≡ w.jobs
  unfolding upload upload_with upload_known upload_file send_file
  jobs-upload p w = ground arith

  -- An upload sends no text.
  pub told-upload : (p : Payload) (w : World S) → told (upload d p w).1.calls ≡ told w.calls
  unfolding upload upload_with upload_known upload_file send_file
  told-upload p w = ground arith
