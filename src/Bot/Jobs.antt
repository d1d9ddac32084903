-- ===== src/Bot/Jobs.antt =====
-- internal/bot/server.go: the list of jobs in hand, `Dispatcher.Jobs`, under the dispatcher's mutex.
pub mod Commuting
pub mod Counts
pub mod Slices
use cribe.Prelude.{String, Bool, true, false, List, [], ◌∷◌, ◌++◌, ◌==◌, ◌&&◌, if◌then◌else◌}
use cribe.Exec.{Exec, ok}
use cribe.Bot.Services.{Payload, zero_payload}
use cribe.Bot.World.{Job, JobKind, fetching, uploading, World}

abbrev pub same_kind : JobKind → JobKind → Bool
same_kind fetching fetching = true
same_kind uploading uploading = true
same_kind _ _ = false

-- The test of `deleteJob`.
abbrev pub is_job : String → JobKind → Job → Bool
is_job video_id kind job = job.video_id == video_id && same_kind job.kind kind

unfoldable pub remove_first : String → JobKind → List Job → List Job
remove_first video_id kind [] = []
remove_first video_id kind (job ∷ jobs) =
    let rest = remove_first video_id kind jobs in
    if is_job video_id kind job then jobs else job ∷ rest

-- Job{Kind: kind, Payload: Payload{VideoID: …, ChatID: …}}
abbrev pub new_job : JobKind → Payload → Job
new_job kind p = record {
  kind = kind;
  payload = record zero_payload { video_id = p.video_id; chat_id = p.chat_id };
}

module _ {S : Type 0} where
  -- s.Jobs = append(s.Jobs, …)
  unfoldable pub add_job : JobKind → Payload → Exec (World S) (Unit {0})
  add_job kind p w = (ok tt, record w { jobs = w.jobs ++ new_job kind p ∷ [] })

  unfoldable pub delete_job : String → JobKind → Exec (World S) (Unit {0})
  unfolding remove_first
  delete_job video_id kind w = (ok tt, record w { jobs = remove_first video_id kind w.jobs })
