-- ===== src/Bot/Finalization/Republishing.antt =====
-- What the end of a run hands back.
use cribe.Bot.Encoding.{encode_payload}
use cribe.Bot.Encoding.RoundTrip.{payload_json-marshal}
use cribe.Prelude.{ℕ, ◌+◌, String, Option, none, List, [], ◌∷◌, ◌≡◌, refl, arith, length, inl, inr}
use cribe.Errors.{Error}
use cribe.Exec.{ok, Result-cases}
use cribe.Bytes.{Bytes}
use cribe.Bot.Services.{Services, zero_payload}
use cribe.Bot.World.{World, Job, JobKind, fetching, uploading}
use cribe.Bot.World.History.{messages, attempts}
use cribe.Bot.Finalization.{queue_of, republish, republish_all, return_jobs, finalization}

module _ {S : Type 0} (d : Services S) (append : Error → Option Error → Error) where
  abbrev home : JobKind → String
  home fetching = "fetching"
  home uploading = "uploading"

  -- The message of a job: the queue of its kind, and its video and chat alone.
  abbrev pub message_of : Job → String × Bytes
  message_of job = (
    home job.kind,
    encode_payload (record zero_payload { video_id = job.video_id; chat_id = job.chat_id }),
  )

  -- The messages of the jobs in front of others, the latest first.
  abbrev pub handed_back : List Job → List (String × Bytes) → List (String × Bytes)
  handed_back [] earlier = earlier
  handed_back (job ∷ jobs) earlier = handed_back jobs (message_of job ∷ earlier)

  queue_of-home : (k : JobKind) → queue_of k ≡ home k
  unfolding queue_of
  queue_of-home fetching = refl
  queue_of-home uploading = refl

  republish-messages :
      (c : ℕ) (job : Job) (merr : Option Error) (w : World S)
      → (republish d append c job merr w).0 ≡ ok none
      → (merr ≡ none)
        × (messages (republish d append c job merr w).1.calls ≡ message_of job ∷ messages w.calls)
  unfolding republish
  republish-messages c job merr w h = ground (
    arith,
    queue_of-home job.kind,
    payload_json-marshal (record zero_payload { video_id = job.video_id; chat_id = job.chat_id }),
  )

  republish-attempts :
      (c : ℕ) (job : Job) (merr : Option Error) (w : World S)
      → attempts (republish d append c job merr w).1.calls ≡ attempts w.calls + 1
  unfolding republish
  republish-attempts c job merr w = ground (
    arith,
    payload_json-marshal (record zero_payload { video_id = job.video_id; chat_id = job.chat_id }),
  )

  republish_all-messages :
      (c : ℕ) (jobs : List Job) (merr : Option Error) (w : World S)
      → (republish_all d append c jobs merr w).0 ≡ ok none
      → (merr ≡ none)
        × (messages (republish_all d append c jobs merr w).1.calls
            ≡ handed_back jobs (messages w.calls))
  unfolding republish_all
  republish_all-messages c [] merr w h = ground arith
  republish_all-messages c (job ∷ jobs) merr w h =
      elim (Result-cases (republish d append c job merr w).0) [
        | inl (x, g) ↦ ground (
          arith,
          republish-messages c job merr w,
          republish_all-messages c jobs x (republish d append c job merr w).1,
        )
        | inr (inl (e, g)) ↦ ground arith
        | inr (inr (p, g)) ↦ ground arith
      ]

  -- A loop of the finalization that returns has offered every job to the broker: an error does not
  -- stop it.
  pub republish_all-attempts :
      (c : ℕ) (jobs : List Job) (merr m : Option Error) (w : World S)
      → (republish_all d append c jobs merr w).0 ≡ ok m
      → attempts (republish_all d append c jobs merr w).1.calls ≡ attempts w.calls + length jobs
  unfolding republish_all
  republish_all-attempts c [] merr m w h = omega arith
  republish_all-attempts c (job ∷ jobs) merr m w h =
      elim (Result-cases (republish d append c job merr w).0) [
        | inl (x, g) ↦ ground (
          arith,
          republish-attempts c job merr w,
          republish_all-attempts c jobs x m (republish d append c job merr w).1,
        )
        | inr (inl (e, g)) ↦ ground arith
        | inr (inr (p, g)) ↦ ground arith
      ]

  jobs-republish :
      (c : ℕ) (job : Job) (merr : Option Error) (w : World S)
      → (republish d append c job merr w).1.jobs ≡ w.jobs
  unfolding republish
  jobs-republish c job merr w = ground arith

  jobs-republish_all :
      (c : ℕ) (jobs : List Job) (merr : Option Error) (w : World S)
      → (republish_all d append c jobs merr w).1.jobs ≡ w.jobs
  unfolding republish_all
  jobs-republish_all c [] merr w = refl
  jobs-republish_all c (job ∷ jobs) merr w =
      elim (Result-cases (republish d append c job merr w).0) [
        | inl (x, g) ↦ ground (
          arith,
          jobs-republish c job merr w,
          jobs-republish_all c jobs x (republish d append c job merr w).1,
        )
        | inr (inl (e, g)) ↦ ground (arith, jobs-republish c job merr w)
        | inr (inr (p, g)) ↦ ground (arith, jobs-republish c job merr w)
      ]

  jobs-return_jobs : (c : ℕ) (w : World S) → (return_jobs d append c w).1.jobs ≡ w.jobs
  unfolding return_jobs
  jobs-return_jobs c w = grind (arith, jobs-republish_all)

  -- A finalization leaves the list of jobs as it is, whatever fails.
  pub jobs-finalization : (w : World S) → (finalization d append w).1.jobs ≡ w.jobs
  unfolding finalization
  jobs-finalization w = grind (arith, jobs-return_jobs)

  return_jobs-messages :
      (c : ℕ) (w : World S)
      → (return_jobs d append c w).0 ≡ ok tt
      → messages (return_jobs d append c w).1.calls ≡ handed_back w.jobs (messages w.calls)
  unfolding return_jobs
  return_jobs-messages c w h = grind (arith, republish_all-messages)

  -- A finalization that returns no error has handed back exactly the jobs in hand, in their order,
  -- each to the queue of its kind as the JSON of its video and chat.
  pub finalization-messages :
      (w : World S)
      → (finalization d append w).0 ≡ ok tt
      → messages (finalization d append w).1.calls ≡ handed_back w.jobs (messages w.calls)
  unfolding finalization
  finalization-messages w h = grind (arith, return_jobs-messages)
