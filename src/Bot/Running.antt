-- ===== src/Bot/Running.antt =====
-- internal/bot/server.go: `Run`. It starts the workers as goroutines, waits for all of them, and
-- hands the jobs in hand back. Every step below is one that the program makes without another
-- goroutine between: an access to the job list under its mutex, the assignment of a worker's result
-- to the variable `err`, which all workers share, or the test of that variable. A panic, which ends
-- the whole program, is no step.
pub mod Accounting
pub mod Cancellation
pub mod Moves
pub mod Simulation
use cribe.Prelude.{ℕ, zero, suc, Bool, true, false, Option, none, some, List, [], ◌∷◌, ◌++◌, ◌≡◌}
use cribe.Prelude.Decimal.{ℤ, pos, negsuc}
use cribe.Errors.{Error}
use cribe.Exec.{Exec, annotate, ◌>>=◌}
use cribe.Srvenv.{TelegramConfig}
use cribe.Bot.Services.{Payload, Services}
use cribe.Bot.World.{World, Job, JobKind, fetching, uploading, silent}
use cribe.Bot.Jobs.{new_job, add_job, delete_job}
use cribe.Bot.Finalization.{finalization}
use cribe.Bot.Updates.{Options, TelegramApi, setup_telegram_mode}

-- What a goroutine runs: `consumingVideoFetching`, `consumingVideoUploading` or `dispatchingMessages`.
pub data Duty : Type 0 where
  consuming : JobKind → Duty
  dispatching : Duty

-- Where it stands: between two messages, at the message of a job, behind the assignment
-- `err = s.consuming…`, or behind `wg.Done`.
pub data Stage : Type 0 where
  waiting : Stage
  busy : Job → Stage
  assigned : Stage
  finished : Stage

pub record Worker : Type 0 where
  pub duty : Duty
  pub stage : Stage

abbrev pub worker : Duty → Stage → Worker
worker duty stage = record { duty = duty; stage = stage }

-- for i := 0; i < n; i++ { wg.Add(1); go func() { … }() }
abbrev pub started : Duty → ℕ → List Worker
started duty zero = []
started duty (suc n) = worker duty waiting ∷ started duty n

-- A loop up to a negative bound makes no round.
abbrev pub rounds : ℤ → ℕ
rounds (pos n) = n
rounds (negsuc n) = 0

unfoldable pub start_workers : Options → List Worker
start_workers opts =
    started (consuming fetching) (rounds opts.fetching_max_worker)
    ++ (started (consuming uploading) (rounds opts.uploading_max_worker)
        ++ started dispatching (rounds opts.telegram_updates_max_workers))

-- `err` is the variable that the workers share, `cancelled` tells whether the context is done, and
-- `receiving` whether updates are still received. `failed`, `returned` and `interrupted` are no
-- variables of the program: the jobs that a worker gave up, what the workers returned, the latest
-- first, and whether the context was cancelled from outside.
pub record Running (S : Type 0) : Type 0 where
  pub world : World S
  pub workers : List Worker
  pub err : Option Error
  pub cancelled : Bool
  pub receiving : Bool
  pub failed : List Job
  pub returned : List (Option Error)
  pub interrupted : Bool

-- `wg.Wait()` returns.
abbrev pub AllFinished : List Worker → Type 0
AllFinished [] = Unit
AllFinished (x ∷ xs) = (x.stage ≡ finished) × AllFinished xs

-- The part of `Run` before the goroutines.
unfoldable pub begin :
    {U S : Type 0} → TelegramApi U S → Options → TelegramConfig → Exec (World S) U
unfolding setup_telegram_mode
begin telegram opts cfg =
    annotate "configuring telegram updates" (silent (setup_telegram_mode telegram opts cfg))

module _ {S : Type 0} where
  unfoldable pub launched : Options → World S → Running S
  unfolding start_workers
  launched opts w = record {
    world = w;
    workers = start_workers opts;
    err = none;
    cancelled = false;
    receiving = true;
    failed = [];
    returned = [];
    interrupted = false;
  }

  pub data Step (r : Running S) : Running S → Type 0 where
    -- A message comes: its job is appended.
    takes :
        (before after : List Worker) (kind : JobKind) (p : Payload)
        → r.workers ≡ before ++ worker (consuming kind) waiting ∷ after
        → Step r (record r {
          world = (add_job kind p r.world).1;
          workers = before ++ worker (consuming kind) (busy (new_job kind p)) ∷ after;
        })
    -- A worker does anything else, which leaves the list of jobs alone.
    goes_on : (w : World S) → w.jobs ≡ r.world.jobs → Step r (record r { world = w })
    -- `fetch` or `upload` returned no error: `deleteJob`.
    ends :
        (before after : List Worker) (kind : JobKind) (p : Payload)
        → r.workers ≡ before ++ worker (consuming kind) (busy (new_job kind p)) ∷ after
        → Step r (record r {
          world = (delete_job p.video_id kind r.world).1;
          workers = before ++ worker (consuming kind) waiting ∷ after;
        })
    -- It returned an error: the job stays in the list.
    gives_up :
        (before after : List Worker) (kind : JobKind) (p : Payload)
        → r.workers ≡ before ++ worker (consuming kind) (busy (new_job kind p)) ∷ after
        → Step r (record r {
          workers = before ++ worker (consuming kind) waiting ∷ after;
          failed = new_job kind p ∷ r.failed;
        })
    -- if err = s.consuming…(ctx, telegram); …
    returns :
        (before after : List Worker) (kind : JobKind) (result : Option Error)
        → r.workers ≡ before ++ worker (consuming kind) waiting ∷ after
        → Step r (record r {
          workers = before ++ worker (consuming kind) assigned ∷ after;
          err = result;
          returned = result ∷ r.returned;
        })
    -- …; err != nil { cancel() }
    cancels :
        (before after : List Worker) (kind : JobKind) (e : Error)
        → r.workers ≡ before ++ worker (consuming kind) assigned ∷ after
        → r.err ≡ some e
        → Step r (record r {
          workers = before ++ worker (consuming kind) finished ∷ after;
          cancelled = true;
        })
    leaves :
        (before after : List Worker) (kind : JobKind)
        → r.workers ≡ before ++ worker (consuming kind) assigned ∷ after
        → r.err ≡ none
        → Step r (record r { workers = before ++ worker (consuming kind) finished ∷ after })
    -- `dispatchingMessages` returns.
    dispatched :
        (before after : List Worker)
        → r.workers ≡ before ++ worker dispatching waiting ∷ after
        → Step r (record r { workers = before ++ worker dispatching finished ∷ after })
    -- <-ctx.Done(); telegram.StopReceivingUpdates()
    stops : r.cancelled ≡ true → Step r (record r { receiving = false })
    -- The deferred `cancel()` of `Run`, which is behind `wg.Wait()` and the finalization.
    concludes : AllFinished r.workers → Step r (record r { cancelled = true })
    -- The context that `Run` was given is done.
    interrupts : Step r (record r { cancelled = true; interrupted = true })

  pub data Reach (from : Running S) : Running S → Type 0 where
    here : Reach from from
    next : {r t : Running S} → Reach from r → Step r t → Reach from t

-- The part of `Run` behind `wg.Wait()`.
unfoldable pub conclude :
    {S : Type 0} → Services S → (Error → Option Error → Error) → Exec (World S) (Unit {0})
unfolding finalization
conclude d append = annotate "finalization" (finalization d append)
