-- ===== src/Bot/Running/Simulation.antt =====
-- The loops of the workers make the steps of a run.
use cribe.Bot.Encoding.{payload_json}
use cribe.Prelude.{
  ℕ, String, Option, none, some, List, [], ◌∷◌, ◌++◌, ◌≡◌, refl, sym, ap, ◌∙◌, ◌⊎◌, arith, inl, inr,
}
use cribe.Errors.{Error}
use cribe.Exec.{Result, ok, err, Exec, annotate, attempt, deferring, ◌>>=◌, ◌>>◌, Result-cases}
use cribe.Bytes.{Bytes}
use cribe.Bot.Services.{Payload, Services, zero_payload, queue_fetching, queue_uploading}
use cribe.Bot.World.{World, JobKind, fetching, uploading, chan, close, queue_declare, consume_from}
use cribe.Bot.Jobs.{add_job, delete_job}
use cribe.Bot.Consumers.{
  report, give_up, each, fetch_decoded, handle_fetching, upload_decoded, handle_uploading,
  consuming_video_fetching, consuming_video_uploading,
}
use cribe.Bot.Fetch.{fetch}
use cribe.Bot.Fetch.Publishing.{jobs-fetch}
use cribe.Bot.Upload.{upload}
use cribe.Bot.Upload.Effects.{jobs-upload}
use cribe.Bot.Consumers.Bookkeeping.{jobs-give_up, jobs-report}
use cribe.Bot.Messages.{Message, dispatching_messages}
use cribe.Bot.Messages.Jobs.{dispatching_messages-jobs}
use cribe.Bot.Running.{
  dispatching, finished, goes_on, here, dispatched, consuming, waiting, assigned, Worker, worker,
  Running, returns, Reach, next,
}
use cribe.Bot.Running.Moves.{
  Calm, starting, going, taking, ending, giving_up, Follows, Follows-keeping, Follows-deferring,
  Follows-bind,
}

-- A Go `error` that is returned, where nil is `none`.
abbrev pub returned_as : Option Error → Result (Unit {0})
returned_as none = ok tt
returned_as (some e) = err e

returned_as-Calm : (result : Option Error) → Calm (returned_as result)
returned_as-Calm none x g = cc
returned_as-Calm (some e) x g = cc

decoded :
    {E P : Type 0} (o : P × Option E)
    → ((p : P) × (e : E) × (o ≡ (p, some e))) ⊎ ((p : P) × (o ≡ (p, none)))
decoded (p, some e) = inl (p, e, refl)
decoded (p, none) = inr (p, refl)

module _ {S : Type 0} (k : JobKind) (before after : List Worker) (r : Running S) where
  module _ (d : Services S) where
    -- A decoded message: the job is appended, `m` runs, and the job is deleted or given up.
    abbrev job : Payload → Exec (World S) (Unit {0}) → Exec (World S) (Unit {0})
    job p m = do add_job k p; attempt m (give_up d p) (λ _. delete_job p.video_id k)

    job-Follows :
        (p : Payload) (m : Exec (World S) (Unit {0}))
        → ((w : World S) → (m w).1.jobs ≡ w.jobs)
        → Follows k before after r (job p m)
    unfolding add_job delete_job
    job-Follows p m keeps w h start =
        let w0 = (add_job k p w).1 in
        let g = going k before after r (m w0).1 (keeps w0) (taking k before after r p start) in
        elim (Result-cases (m w0).0) [
          | inl (x, f) ↦ rw f (ending k before after r p g)
          | inr (inl (x, f)) ↦ rw f (
              giving_up k before after r p
                (going k before after r (give_up d p x (m w0).1).1 (jobs-give_up d p x (m w0).1) g))
          | inr (inr (x, f)) ↦ absurd (h x (rw f refl))
        ]

    each-Follows :
        (body : Bytes → Exec (World S) (Unit {0}))
        → ((b : Bytes) → Follows k before after r (body b))
        → (messages : List Bytes) → Follows k before after r (each d body messages)
    unfolding each
    each-Follows body follows [] = λ w h start. start
    each-Follows body follows (b ∷ messages) =
        Follows-bind k before after r (body b) (λ _. each d body messages) (follows b)
          λ _. each-Follows body follows messages

    -- The form of both loops.
    abbrev serving :
        String → String → (ℕ → Bytes → Exec (World S) (Unit {0})) → Exec (World S) (Unit {0})
    serving queue text body = do
      channel ← annotate "can not create broker channel" (chan d)
      deferring (close d channel) (do
        annotate "can not declare broker queue" (queue_declare d channel queue)
        messages ← annotate text (consume_from d channel queue)
        each d (body channel) messages)

    serving-Follows :
        (queue text : String) (body : ℕ → Bytes → Exec (World S) (Unit {0}))
        → ((c : ℕ) (b : Bytes) → Follows k before after r (body c b))
        → Follows k before after r (serving queue text body)
    serving-Follows queue text body follows =
        Follows-bind k before after r (annotate "can not create broker channel" (chan d)) _
          (Follows-keeping k before after r _ λ w. ground arith)
          λ c.
            Follows-deferring k before after r (close d c) _
              (Follows-keeping k before after r _ λ w. ground arith)
              (Follows-bind k before after r
                (annotate "can not declare broker queue" (queue_declare d c queue)) _
                (Follows-keeping k before after r _ λ w. ground arith)
                λ _.
                  Follows-bind k before after r (annotate text (consume_from d c queue)) _
                    (Follows-keeping k before after r _ λ w. ground arith)
                    λ messages. each-Follows (body c) (follows c) messages)

    handle_fetching-Follows :
        k ≡ fetching → (c : ℕ) (b : Bytes) → Follows k before after r (handle_fetching d c b)
    unfolding handle_fetching fetch_decoded
    handle_fetching-Follows e c b = elim (decoded (payload_json.unmarshal zero_payload b)) [
      | inl (p, x, f) ↦ rw f (Follows-keeping k before after r _ (jobs-report d p.chat_id))
      | inr (p, f) ↦ rw (f, sym e) (job-Follows p (fetch d c p) (jobs-fetch d c p))
    ]

    handle_uploading-Follows :
        k ≡ uploading → (c : ℕ) (b : Bytes) → Follows k before after r (handle_uploading d b)
    unfolding handle_uploading upload_decoded report
    handle_uploading-Follows e c b = elim (decoded (payload_json.unmarshal zero_payload b)) [
      | inl (p, x, f) ↦ rw f (Follows-keeping k before after r _ λ w. ground arith)
      | inr (p, f) ↦ rw (f, sym e) (job-Follows p (upload d p) (jobs-upload d p))
    ]

module _ {S : Type 0} (d : Services S) where
  abbrev pub consuming_loop : JobKind → Exec (World S) (Unit {0})
  consuming_loop fetching = consuming_video_fetching d
  consuming_loop uploading = consuming_video_uploading d

  consuming-Follows :
      (k : JobKind) (before after : List Worker) (r : Running S)
      → Follows k before after r (consuming_loop k)
  unfolding consuming_video_fetching consuming_video_uploading
  consuming-Follows fetching before after r =
      serving-Follows fetching before after r d queue_fetching "amqp consume fetching"
        (handle_fetching d) (handle_fetching-Follows fetching before after r d refl)
  consuming-Follows uploading before after r =
      serving-Follows uploading before after r d queue_uploading "amqp consume uploading"
        (λ c. handle_uploading d) (handle_uploading-Follows uploading before after r d refl)

  -- What a worker that waits does when no other worker does anything is a sequence of the steps of a
  -- run: if its loop, whatever its queue delivers and whatever fails, returns nil or an error in the
  -- world of the run, then the run reaches one in which this worker has assigned that to the shared
  -- `err` and returned it, the world is the one that the loop leaves, and neither the other workers nor
  -- the cancellation have changed.
  pub consuming-Reach :
      (k : JobKind) (before after : List Worker) (r : Running S) (result : Option Error)
      → r.workers ≡ before ++ worker (consuming k) waiting ∷ after
      → (consuming_loop k r.world).0 ≡ returned_as result
      → (t : Running S) × Reach r t
        × (t.workers ≡ before ++ worker (consuming k) assigned ∷ after)
        × (t.world ≡ (consuming_loop k r.world).1)
        × (t.err ≡ result)
        × (t.returned ≡ result ∷ r.returned)
        × (t.cancelled ≡ r.cancelled)
  consuming-Reach k before after r result e h =
      let calm : Calm (consuming_loop k r.world).0 = λ x g. returned_as-Calm result x (sym h ∙ g) in
      let m = consuming-Follows k before after r r.world calm (starting k before after r e) in
      (
        _,
        next m.reach (returns before after k result m.workers),
        refl,
        m.world,
        refl,
        ap (λ rest. result ∷ rest) m.returned,
        m.cancelled,
      )

  -- A dispatching worker that waits, alone: whatever the updates are and whatever fails, the run
  -- reaches one in which it is finished, in the world that its loop leaves.
  pub dispatching-Reach :
      (robot : String) (updates : List (Option Message)) (before after : List Worker)
      → (r : Running S) → r.workers ≡ before ++ worker dispatching waiting ∷ after
      → (t : Running S) × Reach r t
        × (t.workers ≡ before ++ worker dispatching finished ∷ after)
        × (t.world ≡ (dispatching_messages d robot updates r.world).1)
        × (t.err ≡ r.err)
        × (t.cancelled ≡ r.cancelled)
  dispatching-Reach robot updates before after r e = (
    _,
    next
        (next here (
          goes_on (dispatching_messages d robot updates r.world).1
            (dispatching_messages-jobs d robot updates r.world)))
        (dispatched before after e),
    refl,
    refl,
    refl,
    refl,
  )
