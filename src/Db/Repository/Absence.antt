-- ===== src/Db/Repository/Absence.antt =====
-- When the repository reports that a record is missing.
use cribe.Prelude.{ℕ, String, true, false, ◌≡◌, arith}
use cribe.Errors.{Error, record_not_found, no_rows, errors_is}
use cribe.Exec.{ok, err}
use cribe.Db.Transaction.{Pool, DbState, abort, run_tx, in_tx}
use cribe.Db.Repository.{select_row, fetch_by_metadata, read_committed}

-- The errors of the pool are not the repository's own.
pub record IsForeign {S : Type 0} (pool : Pool S) : Type 0 where
  pub acquire :
      (s : S) (e : Error) → (pool.acquire s).0 ≡ err e → errors_is e record_not_found ≡ false
  pub begin_tx :
      (c : ℕ) (iso : String) (s : S) (e : Error)
      → (pool.begin_tx c iso s).0 ≡ err e
      → errors_is e record_not_found ≡ false
  pub commit :
      (tx : ℕ) (s : S) (e : Error)
      → (pool.commit tx s).0 ≡ err e
      → errors_is e record_not_found ≡ false
  pub query_row :
      (tx : ℕ) (video_id quality mime : String) (s : S) (e : Error)
      → (pool.query_row tx video_id quality mime s).0 ≡ err e
      → errors_is e record_not_found ≡ false

module _ {S : Type 0} (pool : Pool S) (video_id mime quality : String) where
  -- If the query of a begun transaction finds no row, then the error of the fetch is recognised as
  -- that of a missing record, through the wrapping and also where the rollback fails.
  pub fetch_by_metadata-absent :
      (conn tx : ℕ) (w : DbState S) (x e : Error)
      → (pool.acquire w.outside).0 ≡ ok conn
      → let s = (pool.acquire w.outside).1 in
        (pool.begin_tx conn read_committed s).0 ≡ ok tx
        → (pool.query_row tx video_id quality mime (pool.begin_tx conn read_committed s).1).0
          ≡ err x
        → errors_is x no_rows ≡ true
        → (fetch_by_metadata pool video_id mime quality w).0 ≡ err e
        → errors_is e record_not_found ≡ true
  unfolding fetch_by_metadata in_tx run_tx abort select_row errors_is
  fetch_by_metadata-absent conn tx w x e a b q n h = ground arith

  -- A fetch reports a missing record only if the query finds no row: if the pool's errors are not the
  -- repository's own and the query never fails for want of a row, no error is that of a missing record.
  pub fetch_by_metadata-present :
      (foreign : IsForeign pool)
      → ((tx : ℕ) (s : S) (x : Error)
          → (pool.query_row tx video_id quality mime s).0 ≡ err x
          → errors_is x no_rows ≡ false)
      → (w : DbState S) (e : Error) → (fetch_by_metadata pool video_id mime quality w).0 ≡ err e
      → errors_is e record_not_found ≡ false
  unfolding fetch_by_metadata in_tx run_tx abort select_row errors_is
  fetch_by_metadata-present foreign found w e h =
      grind (arith, foreign.acquire, foreign.begin_tx, foreign.commit, foreign.query_row, found)
