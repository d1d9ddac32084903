-- ===== src/Bot/Finalization.antt =====
-- internal/bot/server.go: at the end of a run the jobs in hand go back to their queues.
pub mod Republishing
use cribe.Bot.Encoding.{payload_json}
use cribe.Prelude.{ℕ, String, Option, none, some, List, [], ◌∷◌}
use cribe.Errors.{Error}
use cribe.Exec.{Result, Exec, pure, fail, lift, annotate, attempt, deferring, ◌>>=◌, ◌>>◌}
use cribe.Bot.Services.{Services, zero_payload, queue_fetching, queue_uploading}
use cribe.Bot.World.{
  Job, JobKind, fetching, uploading, World, chan, close, queue_declare, publish_to,
}

unfoldable pub queue_of : JobKind → String
queue_of fetching = queue_fetching
queue_of uploading = queue_uploading

-- `append` is `multierror.Append`; `none` is a nil `*multierror.Error`.
module _ {S : Type 0} (d : Services S) (append : Error → Option Error → Error) where
  -- One round of the loop, which collects the errors and goes on.
  unfoldable pub republish : ℕ → Job → Option Error → Exec (World S) (Option Error)
  unfolding queue_of
  republish channel job merr =
      attempt
        (lift (
          payload_json.marshal
            (record zero_payload { video_id = job.video_id; chat_id = job.chat_id })))
        (λ e. pure (some (append e merr)))
        (λ encoded.
          attempt (publish_to d channel (queue_of job.kind) encoded)
            (λ e. pure (some (append e merr))) (λ _. pure merr))

  unfoldable pub republish_all : ℕ → List Job → Option Error → Exec (World S) (Option Error)
  republish_all channel [] merr = pure merr
  republish_all channel (job ∷ jobs) merr = do
    merr' ← republish channel job merr
    republish_all channel jobs merr'

  abbrev error_or_nil : Option Error → Exec (World S) (Unit {0})
  error_or_nil none = pure tt
  error_or_nil (some e) = fail e

  unfoldable pub return_jobs : ℕ → Exec (World S) (Unit {0})
  return_jobs channel w =
      (do
        annotate "can not declare broker queue" (queue_declare d channel queue_fetching)
        annotate "can not declare broker queue" (queue_declare d channel queue_uploading)
        merr ← republish_all channel w.jobs none
        error_or_nil merr)
        w

  unfoldable pub finalization : Exec (World S) (Unit {0})
  finalization = do
    channel ← annotate "can not create broker channel" (chan d)
    deferring (close d channel) (return_jobs channel)
