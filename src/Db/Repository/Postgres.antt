-- ===== src/Db/Repository/Postgres.antt =====
-- What the repository of internal/db/metadata.go relies on of its pool.
use cribe.Prelude.{ℕ, String, true, none, some, ◌≡◌, ◌⊎◌}
use cribe.Errors.{Error, no_rows, errors_is}
use cribe.Exec.{ok, err}
use cribe.Db.{Metadata}
use cribe.Db.Transaction.{Pool}
use cribe.Db.Table.{Rows, put}

-- What the program relies on of PostgreSQL: the rows that are committed, and those that a
-- transaction sees. A commit that fails may have been made.
pub record IsPostgres {S : Type 0} (pool : Pool S) : Type 0 where
  pub committed : S → Rows
  pub seen : S → ℕ → Rows
  pub acquire-rows : (s : S) → committed (pool.acquire s).1 ≡ committed s
  pub release-rows : (c : ℕ) (s : S) → committed (pool.release c s) ≡ committed s
  pub begin-rows :
      (c : ℕ) (iso : String) (s : S) → committed (pool.begin_tx c iso s).1 ≡ committed s
  pub begin-seen :
      (c : ℕ) (iso : String) (s : S) (tx : ℕ)
      → (pool.begin_tx c iso s).0 ≡ ok tx
      → seen (pool.begin_tx c iso s).1 tx ≡ committed s
  pub rollback-rows : (tx : ℕ) (s : S) → committed (pool.rollback tx s).1 ≡ committed s
  pub commit-ok :
      (tx : ℕ) (s : S) → (pool.commit tx s).0 ≡ ok tt → committed (pool.commit tx s).1 ≡ seen s tx
  pub commit-rows :
      (tx : ℕ) (s : S)
      → (committed (pool.commit tx s).1 ≡ committed s)
        ⊎ (committed (pool.commit tx s).1 ≡ seen s tx)
  pub query-rows :
      (tx : ℕ) (v q m : String) (s : S) → committed (pool.query_row tx v q m s).1 ≡ committed s
  pub query-seen :
      (tx : ℕ) (v q m : String) (s : S) → seen (pool.query_row tx v q m s).1 tx ≡ seen s tx
  pub query-ok :
      (tx : ℕ) (v q m : String) (s : S) (x : Metadata)
      → (pool.query_row tx v q m s).0 ≡ ok x
      → seen s tx v m q ≡ some x
  pub query-absent :
      (tx : ℕ) (v q m : String) (s : S) (e : Error)
      → (pool.query_row tx v q m s).0 ≡ err e
      → errors_is e no_rows ≡ true
      → seen s tx v m q ≡ none
  pub upsert-rows : (tx : ℕ) (x : Metadata) (s : S) → committed (pool.upsert tx x s).1 ≡ committed s
  pub upsert-ok :
      (tx : ℕ) (x : Metadata) (s : S) (n : ℕ)
      → (pool.upsert tx x s).0 ≡ ok n
      → seen (pool.upsert tx x s).1 tx ≡ put x (seen s tx)
