-- ===== src/Bot/Consumers/Answers.antt =====
-- Every message of a worker's queue is answered.
use cribe.Prelude.{ℕ, ◌+◌, Option, none, some, List, ◌≡◌, if◌then◌else◌, arith, length}
use cribe.Errors.{Error, canceled, errors_is}
use cribe.Exec.{Result, ok, err, panic}
use cribe.Bytes.{Bytes}
use cribe.Bot.Services.{Payload, Services, zero_payload, queue_fetching, queue_uploading}
use cribe.Bot.World.{World, fetching, uploading}
use cribe.Bot.World.History.{told, published_to, concluded}
use cribe.Bot.Encoding.{payload_json}
use cribe.Bot.Jobs.{add_job, delete_job}
use cribe.Bot.Fetch.{fetch}
use cribe.Bot.Upload.{upload}
use cribe.Bot.Consumers.{
  report, give_up, fetch_decoded, upload_decoded, handle_fetching, handle_uploading,
  consuming_video_fetching, consuming_video_uploading,
}
use cribe.Bot.Consumers.Bookkeeping.{with_job}
use cribe.Bot.Consumers.Loops.{fetch_decoded-answers, upload_decoded-answers}
use cribe.Bot.Consumers.Queues.{delivered, entered, along, each-adds_one}
use cribe.Json.Fields.Errors.{IsPlain}
use cribe.Bot.Consumers.Unreadable.{payload_json-IsPlain}

-- One for work that ended because its context was cancelled.
abbrev pub is_cancelled : Result (Unit {0}) → ℕ
is_cancelled (ok u) = 0
is_cancelled (err e) = if errors_is e canceled then 1 else 0
is_cancelled (panic p) = 0

module _ {S : Type 0} (d : Services S) where
  abbrev pub cancels_fetch : ℕ → Payload × Option Error → World S → ℕ
  cancels_fetch c (p, none) w = is_cancelled (fetch d c p (with_job d fetching p w)).0
  cancels_fetch c (p, some e) w = 0

  abbrev pub cancels_upload : Payload × Option Error → World S → ℕ
  cancels_upload (p, none) w = is_cancelled (upload d p (with_job d uploading p w)).0
  cancels_upload (p, some e) w = 0

  abbrev pub fetches_lost : Result (ℕ × List Bytes) × World S → ℕ
  fetches_lost (ok (c, bodies), w) =
      along (λ b. cancels_fetch c (payload_json.unmarshal zero_payload b)) (handle_fetching d c)
        bodies w
  fetches_lost (err e, w) = 0
  fetches_lost (panic p, w) = 0

  abbrev pub uploads_lost : Result (ℕ × List Bytes) × World S → ℕ
  uploads_lost (ok (c, bodies), w) =
      along (λ b. cancels_upload (payload_json.unmarshal zero_payload b)) (handle_uploading d)
        bodies w
  uploads_lost (err e, w) = 0
  uploads_lost (panic p, w) = 0

  -- How many of the messages that a worker takes up, starting in a world, end by a cancellation.
  abbrev pub cancelled_fetches : World S → ℕ
  cancelled_fetches w = fetches_lost (entered d queue_fetching w)

  abbrev pub cancelled_uploads : World S → ℕ
  cancelled_uploads w = uploads_lost (entered d queue_uploading w)

  fetch_decoded-answered :
      (c : ℕ) (o : Payload × Option Error) (w : World S)
      → (fetch_decoded d c o w).0 ≡ ok tt
      → let w' = (fetch_decoded d c o w).1 in
        (published_to queue_uploading w'.calls + told w'.calls) + cancels_fetch c o w
        ≡ published_to queue_uploading w.calls + told w.calls + 1
  unfolding fetch_decoded give_up report add_job delete_job
  fetch_decoded-answered c (p, some e) w h = ground arith
  fetch_decoded-answered c (p, none) w h = let answer = fetch_decoded-answers d c p w in grind arith

  -- A worker of fetches that returns no error has answered every message of its queue exactly once,
  -- those that it cannot read too, but for those whose fetch ended because the context was cancelled,
  -- which get no answer: the broker took a message for the queue of uploads, or a text to a chat was
  -- tried, and not both.
  pub consuming_video_fetching-answered :
      (w : World S)
      → (consuming_video_fetching d w).0 ≡ ok tt
      → let w' = (consuming_video_fetching d w).1 in
        published_to queue_uploading w'.calls + told w'.calls + cancelled_fetches w
        ≡ published_to queue_uploading w.calls
          + told w.calls
          + length (delivered d queue_fetching w.outside)
  unfolding consuming_video_fetching handle_fetching
  consuming_video_fetching-answered w h = grind (
    arith,
    λ (c : ℕ).
        each-adds_one d (λ (u : World S). published_to queue_uploading u.calls + told u.calls)
          (handle_fetching d c) (λ b. cancels_fetch c (payload_json.unmarshal zero_payload b))
          (λ b. fetch_decoded-answered c (payload_json.unmarshal zero_payload b)),
  )

  upload_decoded-answered :
      (o : Payload × Option Error) (w : World S)
      → IsPlain o.1
      → (upload_decoded d o w).0 ≡ ok tt
      → let w' = (upload_decoded d o w).1 in
        (concluded w'.calls + told w'.calls) + cancels_upload o w
        ≡ concluded w.calls + told w.calls + 1
  unfolding upload_decoded give_up report add_job delete_job
  upload_decoded-answered (p, some e) w plain h = rw plain (ground arith)
  upload_decoded-answered (p, none) w plain h =
      let answer = upload_decoded-answers d p w in grind arith

  -- A worker of uploads that returns no error has answered every message of its queue exactly once,
  -- those that it cannot read too, but for those whose upload ended because the context was
  -- cancelled, which get no answer: one video was shared, one message was handed to the queue of
  -- fetches, one object was deleted, or a text to a chat was tried, and only one of these.
  pub consuming_video_uploading-answered :
      (w : World S)
      → (consuming_video_uploading d w).0 ≡ ok tt
      → let w' = (consuming_video_uploading d w).1 in
        concluded w'.calls + told w'.calls + cancelled_uploads w
        ≡ concluded w.calls + told w.calls + length (delivered d queue_uploading w.outside)
  unfolding consuming_video_uploading handle_uploading
  consuming_video_uploading-answered w h = grind (
    arith,
    each-adds_one d (λ (u : World S). concluded u.calls + told u.calls) (handle_uploading d)
        (λ b. cancels_upload (payload_json.unmarshal zero_payload b))
        (λ b v.
          upload_decoded-answered (payload_json.unmarshal zero_payload b) v
            (payload_json-IsPlain zero_payload b)),
  )
