-- ===== src/Db/Repository.antt =====
-- internal/db/metadata.go: the metadata of videos in PostgreSQL.
pub mod Absence
pub mod Postgres
pub mod Committed
pub mod Keeping
use cribe.Prelude.{ℕ, String, nat_eq, if◌then◌else◌}
use cribe.Errors.{sentinel, record_not_found, key_conflict, no_rows, errors_is}
use cribe.Exec.{Exec, pure, fail, annotate, attempt, ◌>>=◌}
use cribe.Db.{Metadata, MetadataDb}
use cribe.Db.Transaction.{Pool, DbState, unlogged, in_tx}

-- pgx.ReadCommitted
abbrev pub read_committed : String
read_committed = "read committed"

module _ {S : Type 0} (pool : Pool S) where
  -- The function that `FetchByMetadata` runs in its transaction.
  unfoldable pub select_row : String → String → String → ℕ → Exec (DbState S) Metadata
  select_row video_id mime quality tx =
      attempt (unlogged (pool.query_row tx video_id quality mime))
        (λ e.
          if errors_is e no_rows
          then fail (sentinel record_not_found)
          else annotate "transaction" (fail e))
        pure

  unfoldable pub fetch_by_metadata : String → String → String → Exec (DbState S) Metadata
  fetch_by_metadata video_id mime quality =
      annotate "fetch metadata" (in_tx pool read_committed (select_row video_id mime quality))

  -- The function that `Save` runs in its transaction.
  unfoldable pub upsert_row : Metadata → ℕ → Exec (DbState S) (Unit {0})
  upsert_row model tx = do
    affected ← annotate "transaction" (unlogged (pool.upsert tx model))
    if nat_eq affected 0 then fail (sentinel key_conflict) else pure tt

  unfoldable pub save : Metadata → Exec (DbState S) (Unit {0})
  save model = annotate "insert metadata" (in_tx pool read_committed (upsert_row model))

  unfoldable pub new_metadata_repository : MetadataDb (DbState S)
  new_metadata_repository = record { fetch_by_metadata = fetch_by_metadata; save = save }
