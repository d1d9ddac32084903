-- ===== src/Bot/Consumers/Loops.antt =====
-- What a worker does with the messages of its queue.
use cribe.Bot.Encoding.{payload_json}
use cribe.Prelude.{ℕ, ◌+◌, ◌≤◌, String, Option, none, some, ◌≡◌, refl, arith, if◌then◌else◌}
use cribe.Errors.{Error, canceled, errors_is}
use cribe.Exec.{Result, ok, err, panic}
use cribe.Bytes.{Bytes}
use cribe.Bot.Services.{Payload, Services, zero_payload, queue_uploading}
use cribe.Bot.World.{World, JobKind, fetching, uploading}
use cribe.Bot.World.History.{told, published_to, concluded}
use cribe.Bot.Jobs.{add_job, delete_job}
use cribe.Bot.Jobs.Counts.{in_hand}
use cribe.Bot.Fetch.{fetch}
use cribe.Bot.Fetch.Publishing.{fetch-published_to, told-fetch}
use cribe.Bot.Upload.{upload}
use cribe.Bot.Upload.Effects.{upload-concluded, told-upload}
use cribe.Bot.Consumers.{
  report, give_up, fetch_decoded, handle_fetching, upload_decoded, handle_uploading,
  consuming_video_fetching, consuming_video_uploading,
}
use cribe.Bot.Consumers.Bookkeeping.{
  with_job, jobs-report, handle_fetching-in_hand, handle_uploading-in_hand, each-in_hand,
}

-- How many answers a message gets: none after a cancellation or a panic, and one otherwise.
abbrev pub answers : Result (Unit {0}) → ℕ
answers (ok u) = 1
answers (err e) = if errors_is e canceled then 0 else 1
answers (panic p) = 0

module _ {S : Type 0} (d : Services S) where
  -- A payload is answered exactly once; after a cancellation or a panic there is no answer.
  pub fetch_decoded-answers :
      (c : ℕ) (p : Payload) (w : World S)
      → let w' = (fetch_decoded d c (p, none) w).1 in
        published_to queue_uploading w'.calls + told w'.calls
        ≡ published_to queue_uploading w.calls
          + told w.calls
          + answers (fetch d c p (with_job d fetching p w)).0
  unfolding fetch_decoded give_up report add_job delete_job
  fetch_decoded-answers c p w = grind (
    arith,
    fetch-published_to d c queue_uploading p (with_job d fetching p w),
    told-fetch d c p (with_job d fetching p w),
  )

  -- A fetch message that decodes to a payload is answered exactly once: the broker takes a message
  -- for the queue of uploads, or a text to the chat is tried, and not both; after a cancellation or a panic
  -- there is no answer.
  pub handle_fetching-answered :
      (c : ℕ) (body : Bytes) (p : Payload) (w : World S)
      → payload_json.unmarshal zero_payload body ≡ (p, none)
      → let w' = (handle_fetching d c body w).1 in
        published_to queue_uploading w'.calls + told w'.calls
        ≡ published_to queue_uploading w.calls
          + told w.calls
          + answers (fetch d c p (with_job d fetching p w)).0
  unfolding handle_fetching
  handle_fetching-answered c body p w h = rw h (fetch_decoded-answers c p w)

  pub upload_decoded-answers :
      (p : Payload) (w : World S)
      → let w' = (upload_decoded d (p, none) w).1 in
        concluded w'.calls + told w'.calls
        ≡ concluded w.calls + told w.calls + answers (upload d p (with_job d uploading p w)).0
  unfolding upload_decoded give_up report add_job delete_job
  upload_decoded-answers p w =
      let u = with_job d uploading p w in
      let sent = upload-concluded d p u in let silent = told-upload d p u in grind arith

  -- An upload message that decodes to a payload is answered exactly once: it is concluded, or a text
  -- to the chat is tried, and not both; after a cancellation or a panic there is no answer.
  handle_uploading-answered :
      (body : Bytes) (p : Payload) (w : World S)
      → payload_json.unmarshal zero_payload body ≡ (p, none)
      → let w' = (handle_uploading d body w).1 in
        concluded w'.calls + told w'.calls
        ≡ concluded w.calls + told w.calls + answers (upload d p (with_job d uploading p w)).0
  unfolding handle_uploading
  handle_uploading-answered body p w h = rw h (upload_decoded-answers p w)

  handle_fetching_keeps :
      (c : ℕ) (v : String) (k : JobKind) (body : Bytes) (w : World S)
      → in_hand v k w.jobs ≤ in_hand v k (handle_fetching d c body w).1.jobs
  handle_fetching_keeps c v k body w = go (payload_json.unmarshal zero_payload body) refl
    where
      go :
          (o : Payload × Option Error)
          → payload_json.unmarshal zero_payload body ≡ o
          → in_hand v k w.jobs ≤ in_hand v k (handle_fetching d c body w).1.jobs
      go (p, none) h = ground (arith, handle_fetching-in_hand d c body p w v k h)
      go (p, some e) h =
          unfold handle_fetching fetch_decoded in
          rw h (rw (jobs-report d p.chat_id w) (omega arith))

  handle_uploading_keeps :
      (v : String) (k : JobKind) (body : Bytes) (w : World S)
      → in_hand v k w.jobs ≤ in_hand v k (handle_uploading d body w).1.jobs
  handle_uploading_keeps v k body w = go (payload_json.unmarshal zero_payload body) refl
    where
      go :
          (o : Payload × Option Error)
          → payload_json.unmarshal zero_payload body ≡ o
          → in_hand v k w.jobs ≤ in_hand v k (handle_uploading d body w).1.jobs
      go (p, none) h = ground (arith, handle_uploading-in_hand d body p w v k h)
      go (p, some e) h =
          unfold handle_uploading upload_decoded in rw h (ground (arith, jobs-report d p.chat_id w))

  -- A worker of either kind, whatever its queue delivers and whatever fails, leaves at least as many
  -- jobs of every video and kind as there were. They need not be those of the same chats.
  consuming_keeps_jobs :
      (w : World S) (v : String) (k : JobKind)
      → (in_hand v k w.jobs ≤ in_hand v k (consuming_video_fetching d w).1.jobs)
        × (in_hand v k w.jobs ≤ in_hand v k (consuming_video_uploading d w).1.jobs)
  unfolding consuming_video_fetching consuming_video_uploading
  consuming_keeps_jobs w v k = (
    grind
        (arith, λ (c : ℕ). each-in_hand d (handle_fetching d c) v k (handle_fetching_keeps c v k)),
    grind (arith, each-in_hand d (handle_uploading d) v k (handle_uploading_keeps v k)),
  )
