-- ===== src/Bot/Running/Accounting.antt =====
-- The list of jobs over a whole run.
use cribe.Prelude.{
  ℕ, zero, suc, ◌+◌, String, Option, inl, inr, List, [], ◌∷◌, ◌++◌, ◌≡◌, refl, arith, if◌then◌else◌,
}
use cribe.Errors.{Error}
use cribe.Exec.{ok, Result-cases}
use cribe.Bot.Services.{Services}
use cribe.Bot.World.{World, JobKind, fetching, uploading}
use cribe.Bot.World.History.{messages}
use cribe.Bot.Jobs.{is_job, new_job, add_job, delete_job}
use cribe.Bot.Jobs.Counts.{in_hand, in_hand-remove_first, in_hand-new_job}
use cribe.Bot.Finalization.{finalization}
use cribe.Bot.Finalization.Republishing.{handed_back, finalization-messages}
use cribe.Bot.Updates.{Options}
use cribe.Bot.Running.{
  Duty, consuming, dispatching, Stage, waiting, busy, assigned, finished, Worker, worker, started,
  rounds, start_workers, Running, launched, Step, takes, goes_on, ends, gives_up, returns, cancels,
  leaves, dispatched, stops, concludes, interrupts, Reach, here, next, AllFinished, conclude,
}

-- How many jobs of a video and kind a worker is at.
abbrev at_job : String → JobKind → Stage → ℕ
at_job v k (busy job) = if is_job v k job then 1 else 0
at_job v k waiting = 0
at_job v k assigned = 0
at_job v k finished = 0

abbrev pub held : String → JobKind → List Worker → ℕ
held v k [] = 0
held v k (x ∷ xs) = at_job v k x.stage + held v k xs

held-append :
    (v : String) (k : JobKind) (xs ys : List Worker)
    → held v k (xs ++ ys) ≡ held v k xs + held v k ys
held-append v k [] ys = omega arith
held-append v k (x ∷ xs) ys = omega (arith, held-append v k xs ys)

-- One worker's move.
held-moved :
    (v : String) (k : JobKind) (xs before after : List Worker) (x y : Worker)
    → xs ≡ before ++ x ∷ after
    → held v k (before ++ y ∷ after) + at_job v k x.stage ≡ held v k xs + at_job v k y.stage
held-moved v k xs before after x y e =
    rw e (omega (arith, held-append v k before (x ∷ after), held-append v k before (y ∷ after)))

held-started : (v : String) (k : JobKind) (duty : Duty) (n : ℕ) → held v k (started duty n) ≡ 0
held-started v k duty zero = refl
held-started v k duty (suc n) = omega (arith, held-started v k duty n)

held-AllFinished : (v : String) (k : JobKind) (xs : List Worker) → AllFinished xs → held v k xs ≡ 0
held-AllFinished v k [] h = refl
held-AllFinished v k (x ∷ xs) h = ground (arith, held-AllFinished v k xs h.1)

module _ {S : Type 0} where
  -- The list holds what the workers are at and what they gave up.
  abbrev pub Accounted : Running S → Type 0
  Accounted r =
      (v : String) (k : JobKind)
      → in_hand v k r.world.jobs ≡ held v k r.workers + in_hand v k r.failed

  launched-Accounted : (opts : Options) (w : World S) → w.jobs ≡ [] → Accounted (launched opts w)
  unfolding launched start_workers
  launched-Accounted opts w e v k =
      let fetchers = started (consuming fetching) (rounds opts.fetching_max_worker) in
      let uploaders = started (consuming uploading) (rounds opts.uploading_max_worker) in
      let dispatchers = started dispatching (rounds opts.telegram_updates_max_workers) in
      rw e (
        omega (
          arith,
          held-append v k fetchers (uploaders ++ dispatchers),
          held-append v k uploaders dispatchers,
          held-started v k (consuming fetching) (rounds opts.fetching_max_worker),
          held-started v k (consuming uploading) (rounds opts.uploading_max_worker),
          held-started v k dispatching (rounds opts.telegram_updates_max_workers),
        ))

  Step-Accounted : {r t : Running S} → Step r t → Accounted r → Accounted t
  unfolding add_job delete_job
  Step-Accounted {r} (takes before after kind p e) a v k = ground (
    arith,
    a v k,
    in_hand-new_job v kind k p r.world.jobs,
    held-moved v k r.workers before after (worker (consuming kind) waiting)
        (worker (consuming kind) (busy (new_job kind p))),
  )
  Step-Accounted (goes_on w e) a v k = rw e (a v k)
  Step-Accounted {r} (ends before after kind p e) a v k = ground (
    arith,
    a v k,
    in_hand-remove_first p.video_id v kind k r.world.jobs,
    held-moved v k r.workers before after (worker (consuming kind) (busy (new_job kind p)))
        (worker (consuming kind) waiting),
  )
  Step-Accounted {r} (gives_up before after kind p e) a v k = ground (
    arith,
    a v k,
    held-moved v k r.workers before after (worker (consuming kind) (busy (new_job kind p)))
        (worker (consuming kind) waiting),
  )
  Step-Accounted {r} (returns before after kind result e) a v k = ground (
    arith,
    a v k,
    held-moved v k r.workers before after (worker (consuming kind) waiting)
        (worker (consuming kind) assigned),
  )
  Step-Accounted {r} (cancels before after kind x e f) a v k = ground (
    arith,
    a v k,
    held-moved v k r.workers before after (worker (consuming kind) assigned)
        (worker (consuming kind) finished),
  )
  Step-Accounted {r} (leaves before after kind e f) a v k = ground (
    arith,
    a v k,
    held-moved v k r.workers before after (worker (consuming kind) assigned)
        (worker (consuming kind) finished),
  )
  Step-Accounted {r} (dispatched before after e) a v k = ground (
    arith,
    a v k,
    held-moved v k r.workers before after (worker dispatching waiting)
        (worker dispatching finished),
  )
  Step-Accounted (stops e) a v k = a v k
  Step-Accounted (concludes e) a v k = a v k
  Step-Accounted interrupts a v k = a v k

  Reach-Accounted : {r t : Running S} → Reach r t → Accounted r → Accounted t
  Reach-Accounted here a = a
  Reach-Accounted (next q st) a = Step-Accounted st (Reach-Accounted q a)

  -- When all workers of a run that started with no jobs are finished, the jobs in hand are, of each
  -- video and kind, as many as the workers gave up, however their steps interleaved; and a
  -- run that then returns no error has handed back exactly these jobs, in their order, each to the
  -- queue of its kind as the JSON of its video and chat.
  pub conclude-Reach :
      (d : Services S) (append : Error → Option Error → Error) (opts : Options) (w : World S)
      (r : Running S)
      → w.jobs ≡ []
      → Reach (launched opts w) r
      → AllFinished r.workers
      → (conclude d append r.world).0 ≡ ok tt
      → ((v : String) (k : JobKind) → in_hand v k r.world.jobs ≡ in_hand v k r.failed)
        × (messages (conclude d append r.world).1.calls
            ≡ handed_back d append r.world.jobs (messages r.world.calls))
  unfolding conclude
  conclude-Reach d append opts w r e q done h = (
    λ v k. omega (
      arith,
      Reach-Accounted q (launched-Accounted opts w e) v k,
      held-AllFinished v k r.workers done,
    ),
    elim (Result-cases (finalization d append r.world).0) [
      | inl (x, g) ↦ finalization-messages d append r.world g
      | inr (inl (x, g)) ↦ cc (rw g at h)
      | inr (inr (x, g)) ↦ cc (rw g at h)
    ],
  )
