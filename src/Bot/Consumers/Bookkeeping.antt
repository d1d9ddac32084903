-- ===== src/Bot/Consumers/Bookkeeping.antt =====
-- The list of jobs while the two kinds of workers run.
use cribe.Bot.Encoding.{payload_json}
use cribe.Prelude.{ℕ, ◌+◌, ◌≤◌, String, none, List, [], ◌∷◌, ◌++◌, ◌≡◌, arith, if◌then◌else◌}
use cribe.Prelude.Decimal.{ℤ}
use cribe.Errors.{Error}
use cribe.Exec.{Exec, is_ok}
use cribe.Bytes.{Bytes}
use cribe.Bot.Services.{Payload, Services, zero_payload}
use cribe.Bot.World.{World, JobKind, fetching, uploading}
use cribe.Bot.Jobs.{is_job, new_job, add_job, delete_job, remove_first}
use cribe.Bot.Jobs.Counts.{in_hand, in_hand_laws}
use cribe.Bot.Fetch.{fetch}
use cribe.Bot.Fetch.Publishing.{jobs-fetch}
use cribe.Bot.Upload.{upload}
use cribe.Bot.Upload.Effects.{jobs-upload}
use cribe.Bot.Consumers.{
  report, give_up, fetch_decoded, handle_fetching, upload_decoded, handle_uploading, each,
}

module _ {S : Type 0} (d : Services S) where
  pub jobs-give_up : (p : Payload) (e : Error) (w : World S) → (give_up d p e w).1.jobs ≡ w.jobs
  unfolding give_up report
  jobs-give_up p e w = ground arith

  pub jobs-report : (chat : ℤ) (w : World S) → (report d chat w).1.jobs ≡ w.jobs
  unfolding report
  jobs-report chat w = ground arith

  -- The world in which the fetch of a payload runs.
  abbrev pub with_job : JobKind → Payload → World S → World S
  with_job k p w = record w { jobs = w.jobs ++ new_job k p ∷ [] }

  fetch_decoded-jobs :
      (c : ℕ) (p : Payload) (w : World S)
      → (fetch_decoded d c (p, none) w).1.jobs ≡ (
          if is_ok (fetch d c p (with_job fetching p w)).0
          then remove_first p.video_id fetching (w.jobs ++ new_job fetching p ∷ [])
          else w.jobs ++ new_job fetching p ∷ [])
  unfolding fetch_decoded add_job delete_job
  fetch_decoded-jobs c p w = grind (arith, jobs-fetch d c p (with_job fetching p w), jobs-give_up)

  upload_decoded-jobs :
      (p : Payload) (w : World S)
      → (upload_decoded d (p, none) w).1.jobs ≡ (
          if is_ok (upload d p (with_job uploading p w)).0
          then remove_first p.video_id uploading (w.jobs ++ new_job uploading p ∷ [])
          else w.jobs ++ new_job uploading p ∷ [])
  unfolding upload_decoded add_job delete_job
  upload_decoded-jobs p w = grind (arith, jobs-upload d p (with_job uploading p w), jobs-give_up)

  pub handle_fetching-jobs :
      (c : ℕ) (body : Bytes) (p : Payload) (w : World S)
      → payload_json.unmarshal zero_payload body ≡ (p, none)
      → (handle_fetching d c body w).1.jobs ≡ (
          if is_ok (fetch d c p (with_job fetching p w)).0
          then remove_first p.video_id fetching (w.jobs ++ new_job fetching p ∷ [])
          else w.jobs ++ new_job fetching p ∷ [])
  unfolding handle_fetching
  handle_fetching-jobs c body p w h = rw h (fetch_decoded-jobs c p w)

  pub handle_uploading-jobs :
      (body : Bytes) (p : Payload) (w : World S)
      → payload_json.unmarshal zero_payload body ≡ (p, none)
      → (handle_uploading d body w).1.jobs ≡ (
          if is_ok (upload d p (with_job uploading p w)).0
          then remove_first p.video_id uploading (w.jobs ++ new_job uploading p ∷ [])
          else w.jobs ++ new_job uploading p ∷ [])
  unfolding handle_uploading
  handle_uploading-jobs body p w h = rw h (upload_decoded-jobs p w)

  -- One message that decodes to a payload leaves, of every video and kind, as many jobs in hand as
  -- before if its fetch returns no error, and one more of its own key if it fails or panics.
  pub handle_fetching-in_hand :
      (c : ℕ) (body : Bytes) (p : Payload) (w : World S) (v : String) (k : JobKind)
      → payload_json.unmarshal zero_payload body ≡ (p, none)
      → in_hand v k (handle_fetching d c body w).1.jobs
        ≡ in_hand v k w.jobs
          + (if is_ok (fetch d c p (with_job fetching p w)).0
              then 0
              else if is_job v k (new_job fetching p)
              then 1
              else 0)
  unfolding handle_fetching
  handle_fetching-in_hand c body p w v k h = rw h (grind (in_hand_laws, fetch_decoded-jobs c p w))

  -- One message from the queue of uploads that decodes to a payload leaves, of every video and kind, as
  -- many jobs in hand as before if its upload returns no error, and one more of its own key if it
  -- fails or panics.
  pub handle_uploading-in_hand :
      (body : Bytes) (p : Payload) (w : World S) (v : String) (k : JobKind)
      → payload_json.unmarshal zero_payload body ≡ (p, none)
      → in_hand v k (handle_uploading d body w).1.jobs
        ≡ in_hand v k w.jobs
          + (if is_ok (upload d p (with_job uploading p w)).0
              then 0
              else if is_job v k (new_job uploading p)
              then 1
              else 0)
  unfolding handle_uploading
  handle_uploading-in_hand body p w v k h = rw h (grind (in_hand_laws, upload_decoded-jobs p w))

  -- A body that never loses a job of the key, run over any messages, never loses one.
  pub each-in_hand :
      (body : Bytes → Exec (World S) (Unit {0})) (v : String) (k : JobKind)
      → ((b : Bytes) (w : World S) → in_hand v k w.jobs ≤ in_hand v k (body b w).1.jobs)
      → (messages : List Bytes) (w : World S)
      → in_hand v k w.jobs ≤ in_hand v k (each d body messages w).1.jobs
  unfolding each
  each-in_hand body v k keeps [] w = omega arith
  each-in_hand body v k keeps (m ∷ messages) w =
      grind (arith, keeps m w, each-in_hand body v k keeps messages (body m w).1)
