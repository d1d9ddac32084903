-- ===== src/Tests/Databases.antt =====
-- Transactions and the repository at concrete inputs.
use cribe.Prelude.{ℕ, ◌+◌, [], ◌≡◌, refl, if◌then◌else◌}
use cribe.Errors.{sentinel, wrap, record_not_found, no_rows, errors_is}
use cribe.Exec.{Result, err, pure, is_ok}
use cribe.Db.{Metadata}
use cribe.Db.Transaction.{Pool, DbState, abort, run_tx, in_tx}
use cribe.Db.Transaction.Ending.{acquisitions, releases, commits, in_tx-actions}
use cribe.Db.Repository.{select_row, fetch_by_metadata, read_committed}

-- A pool whose query answers the same every time.
abbrev pool : Result Metadata → Pool ℕ
pool row = record {
  acquire = pure 1;
  release = λ c s. s;
  begin_tx = λ c iso. pure 2;
  rollback = λ tx. pure tt;
  commit = λ tx. pure tt;
  query_row = λ tx v q m s. (row, s);
  upsert = λ tx m. pure 1;
}

abbrev calm : DbState ℕ
calm = record { outside = 0; actions = [] }

abbrev empty_pool : Pool ℕ
empty_pool = pool (err (sentinel no_rows))

select_row_plain :
    (tx : ℕ) (w : DbState ℕ) → (select_row empty_pool "v1" "m" "q" tx w).1.actions ≡ w.actions
unfolding select_row errors_is
select_row_plain tx w = refl

in_tx-actions_example :
    let (r, w') = in_tx empty_pool read_committed (select_row empty_pool "v1" "m" "q") calm in
    (acquisitions w'.actions + 0 ≡ releases w'.actions + 0)
    × (commits w'.actions ≡ 0 + (if is_ok r then 1 else 0))
in_tx-actions_example =
    in_tx-actions empty_pool read_committed (select_row empty_pool "v1" "m" "q") select_row_plain
      calm

fetch_by_metadata_test :
    (fetch_by_metadata empty_pool "v1" "m" "q" calm).0
    ≡ err (wrap "fetch metadata" (sentinel record_not_found))
unfolding fetch_by_metadata in_tx run_tx abort select_row errors_is
fetch_by_metadata_test = refl
