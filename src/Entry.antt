-- ===== src/Entry.antt =====
-- cmd/cribe-bot/main.go: how the program ends. `log.Fatalf` and `logger.Fatalf` end it at once, with no
-- deferred call; the HTTP server for health and profiling runs in a goroutine of its own.
pub mod Routing
pub mod Assembly
use cribe.Prelude.{String, Option, none, some}
use cribe.BuildInfo.{graffiti, greeting, info}
use cribe.Errors.{Error}
use cribe.Exec.{Result, ok, err, panic, Exec, pure, attempt}

pub data Ending : Type 0 where
  returned : Ending
  fatal : String → Error → Ending
  crashed : String → Ending

-- What `main` calls: the printing, `srvenv.Setup`, the HTTP server's `ListenAndServe`,
-- `bot.NewDispatcher` and `Run` of what it gives, of type `D`, and the deferred calls `env.AMQP().Close()` and `cancel()`.
pub record Parts (E D S : Type 0) : Type 0 where
  pub print : String → S → S
  pub setup : Exec S E
  pub listen_and_serve : E → Exec S (Unit {0})
  pub new_dispatcher : E → Exec S D
  pub run : D → E → Exec S (Unit {0})
  pub close : E → S → S
  pub cancel : S → S

-- What the server answers on `/health`.
abbrev pub health : String
health = "{\"status\": \"ok\"}"

-- The goroutine of the HTTP server assigns its error, which is never nil, to the variable `err` that
-- `main` assigns and tests as well. Where it does so between an assignment and its test, the test sees
-- the goroutine's error: behind `bot.NewDispatcher`, and behind `Run`.
pub record Races : Type 0 where
  pub at_new_dispatcher : Option Error
  pub at_run : Option Error

abbrev latest_of : Option Error → Error → Error
latest_of none e = e
latest_of (some x) e = x

-- What a test of `err` sees of a call.
abbrev overwritten : {S : Type 0} → Option Error → Result (Unit {0}) × S → Result (Unit {0}) × S
overwritten race (panic p, s) = (panic p, s)
overwritten race (err e, s) = (err (latest_of race e), s)
overwritten none (ok u, s) = (ok u, s)
overwritten (some x) (ok u, s) = (err x, s)

module _ {E D S : Type 0} (parts : Parts E D S) where
  -- The goroutine of the server: where it fails, the context is cancelled.
  unfoldable pub serve_metrics : E → Exec S (Unit {0})
  serve_metrics env =
      attempt (parts.listen_and_serve env) (λ e s. (ok tt, parts.cancel s)) (λ _. pure tt)

  -- The deferred calls, the last first.
  abbrev deferred : E → S → S
  deferred env s = parts.cancel (parts.close env s)

  abbrev ended : E → Result (Unit {0}) × S → Ending × S
  ended env (ok u, s) = (returned, deferred env s)
  ended env (err e, s) = (fatal "bot dispatcher" e, s)
  ended env (panic p, s) = (crashed p, deferred env s)

  module _ (races : Races) where
    abbrev dispatched : E → D → Result (Unit {0}) × S → Ending × S
    dispatched env dispatcher (ok u, s) =
        ended env (overwritten races.at_run (parts.run dispatcher env s))
    dispatched env dispatcher (err e, s) = (fatal "new telegram dispatcher" e, s)
    dispatched env dispatcher (panic p, s) = (crashed p, deferred env s)

    -- `dispatcher` and `err` are two variables: the goroutine overwrites the second alone.
    abbrev made : E → Result D × S → Ending × S
    made env (ok dispatcher, s) =
        dispatched env dispatcher (overwritten races.at_new_dispatcher (ok tt, s))
    made env (err e, s) = (fatal "new telegram dispatcher" (latest_of races.at_new_dispatcher e), s)
    made env (panic p, s) = (crashed p, deferred env s)

    abbrev served : Result E × S → Ending × S
    served (ok env, s) = made env (parts.new_dispatcher env s)
    served (err e, s) = (fatal "setup" e, s)
    served (panic p, s) = (crashed p, parts.cancel s)

  unfoldable pub banner : S → S
  unfolding greeting
  banner s = parts.print (greeting info) (parts.print graffiti s)

  unfoldable pub main : Races → S → Ending × S
  unfolding banner
  main races s = served races (parts.setup (banner s))
