-- ===== src/Tests/Runs.antt =====
-- Whole runs, and signals, at concrete inputs.
use cribe.Json.Quoting.{escape, quote}
use cribe.Json.Scanner.{parse}
use cribe.Json.Fields.{unmarshal}
use cribe.Bot.Encoding.{payload_json}
use cribe.Prelude.{◌<◌, String, true, false, none, some, List, [], ◌∷◌, ◌≡◌, refl, ◌⊎◌}
use cribe.Prelude.Decimal.{itoa, pos}
use cribe.Exec.{ok}
use cribe.Bot.World.{World, JobKind, fetching, uploading}
use cribe.Bot.World.History.{messages}
use cribe.Bot.Jobs.{delete_job, add_job, new_job}
use cribe.Bot.Jobs.Counts.{in_hand}
use cribe.Bot.Finalization.{finalization, return_jobs, republish_all, republish}
use cribe.Bot.Finalization.Republishing.{handed_back}
use cribe.Bot.Updates.{Options}
use cribe.Bot.Running.{
  assigned, consuming, Stage, waiting, finished, Worker, worker, start_workers, Running, launched,
  takes, gives_up, returns, cancels, leaves, stops, Reach, here, next, conclude, AllFinished,
}
use cribe.Bot.Running.Accounting.{conclude-Reach}
use cribe.Bot.Running.Cancellation.{errors, cancelled-Reach}
use cribe.Shutdown
use cribe.Shutdown.{Signal, sigint, sigterm, Interrupt, interrupt_context, signal}
use cribe.Shutdown.Signals.{interrupt_context-Reach}
use cribe.Tests.Fake.{Outside, request, fresh_world}
use cribe.Tests.Pipeline
use cribe.Bot.Fetch.{fetch, fetch_new, fetch_known, fetch_again, store_if_missing, record_metadata}
use cribe.Bot.Thumbnails.{choose_thumb, sort_slice, sift_all, sift, less}
use cribe.Errors.{Error, message, errors_is}
use cribe.Tests.Pipeline.{stored_video}
use cribe.Bot.Running.Simulation.{consuming-Reach}
use cribe.Bot.Consumers.{
  consuming_video_fetching, each, handle_fetching, fetch_decoded, report, give_up,
}
use cribe.Tests.Workers.{join}

-- One worker for each kind of job, and none for updates.
abbrev few_workers : Options
few_workers = record {
  bucket = "b";
  telegram_polling_timeout = pos 60;
  fetching_max_worker = pos 1;
  uploading_max_worker = pos 1;
  telegram_updates_max_workers = pos 0;
}

abbrev launch : Running Outside
launch = launched few_workers fresh_world

abbrev closed : Error
closed = message "channel closed"

abbrev both : Stage → Stage → List Worker
both s t = worker (consuming fetching) s ∷ worker (consuming uploading) t ∷ []

-- The uploader gives a job up, and both workers then leave without an error.
abbrev ended : Running Outside
ended = record launch {
  world = (add_job uploading request fresh_world).1;
  workers = both finished finished;
  failed = new_job uploading request ∷ [];
  returned = none ∷ none ∷ [];
}

ended-Reach : Reach launch ended
unfolding launched start_workers
ended-Reach =
    next
      (next
        (next
          (next
            (next
              (next here
                (takes (worker (consuming fetching) waiting ∷ []) [] uploading request refl))
              (gives_up (worker (consuming fetching) waiting ∷ []) [] uploading request refl))
            (returns [] (worker (consuming uploading) waiting ∷ []) fetching none refl))
          (leaves [] (worker (consuming uploading) waiting ∷ []) fetching refl refl))
        (returns (worker (consuming fetching) finished ∷ []) [] uploading none refl))
      (leaves (worker (consuming fetching) finished ∷ []) [] uploading refl refl)

ended_test : (conclude stored_video join ended.world).0 ≡ ok tt
unfolding conclude finalization return_jobs republish_all republish add_job payload_json
ended_test = refl

conclude-Reach_example :
    ((v : String) (k : JobKind)
      → in_hand v k ended.world.jobs ≡ in_hand v k (new_job uploading request ∷ []))
    × (messages (conclude stored_video join ended.world).1.calls
        ≡ handed_back stored_video join ended.world.jobs [])
unfolding launched add_job
conclude-Reach_example =
    conclude-Reach stored_video join few_workers fresh_world ended refl ended-Reach
      (refl, (refl, tt)) ended_test

-- The fetcher returns an error, and the updates stop.
abbrev stopped : Running Outside
stopped = record launch {
  workers = both finished waiting;
  err = some closed;
  cancelled = true;
  receiving = false;
  returned = some closed ∷ [];
}

stopped-Reach : Reach launch stopped
unfolding launched start_workers
stopped-Reach =
    next
      (next
        (next here
          (returns [] (worker (consuming uploading) waiting ∷ []) fetching (some closed) refl))
        (cancels [] (worker (consuming uploading) waiting ∷ []) fetching closed refl refl))
      (stops refl)

cancelled-Reach_example :
    (false ≡ false → true ≡ true)
    × (true ≡ true
        → (false ≡ true) ⊎ ((0 < errors (some closed ∷ [])) ⊎ AllFinished stopped.workers))
unfolding launched
cancelled-Reach_example = cancelled-Reach few_workers fresh_world stopped stopped-Reach

-- A signal comes, and the goroutine takes it.
abbrev signals : List Signal
signals = sigint ∷ sigterm ∷ []

abbrev caught : Interrupt
caught = record (interrupt_context signals) { received = true; watching = false; cancelled = true }

caught-Reach : Shutdown.Reach (interrupt_context signals) caught
unfolding interrupt_context
caught-Reach =
    Shutdown.next (Shutdown.next Shutdown.here (signal sigint refl))
      (Shutdown.takes sigint refl refl)

interrupt_context-Reach_example :
    (caught.received ≡ true
      → (caught.cancelled ≡ true)
        ⊎ ((caught.watching ≡ true) × ((s : Signal) × (caught.buffer ≡ some s))))
    × (caught.cancelled ≡ true
        → (caught.received ≡ true) ⊎ ((caught.closed ≡ true) ⊎ (caught.parent_done ≡ true)))
interrupt_context-Reach_example = interrupt_context-Reach signals caught caught-Reach

-- The queue of fetches delivers two requests.
abbrev served : World Outside
served = (consuming_video_fetching Pipeline.busy fresh_world).1

served_test : (consuming_video_fetching Pipeline.busy fresh_world).0 ≡ ok tt
unfolding consuming_video_fetching each handle_fetching fetch_decoded report give_up add_job
    delete_job fetch fetch_new store_if_missing record_metadata choose_thumb sort_slice sift_all
    sift less errors_is fetch_known fetch_again payload_json unmarshal parse quote escape itoa
served_test = refl

consuming-Reach_example :
    (t : Running Outside) × Reach launch t
    × (t.workers ≡ both assigned waiting)
    × (t.world ≡ served)
    × (t.err ≡ none)
    × (t.returned ≡ none ∷ [])
    × (t.cancelled ≡ false)
unfolding launched start_workers
consuming-Reach_example =
    consuming-Reach Pipeline.busy fetching [] (worker (consuming uploading) waiting ∷ []) launch
      none refl served_test
