-- ===== src/Tests/Tables.antt =====
-- A pool that keeps its rows: those that are committed, and those that its one transaction sees.
use cribe.Prelude.{Option, none, some, ◌≡◌, refl, arith, inr}
use cribe.Errors.{Error, sentinel, no_rows, errors_is}
use cribe.Exec.{Result, ok, err, pure}
use cribe.Db.{Metadata}
use cribe.Db.Transaction.{Pool}
use cribe.Db.Repository.{new_metadata_repository}
use cribe.Db.Repository.Absence.{IsForeign}
use cribe.Db.Table.{Rows, put, IsTable}
use cribe.Db.Repository.Postgres.{IsPostgres}
use cribe.Db.Repository.Keeping.{new_metadata_repository-IsTable}

abbrev Kept : Type 0
Kept = Rows × Rows

abbrev answer : Option Metadata → Result Metadata
answer none = err (sentinel no_rows)
answer (some x) = ok x

abbrev keeping_pool : Pool Kept
keeping_pool = record {
  acquire = pure 1;
  release = λ c s. s;
  begin_tx = λ c iso (rows, _). (ok 2, (rows, rows));
  rollback = λ tx (rows, _). (ok tt, (rows, rows));
  commit = λ tx (_, rows). (ok tt, (rows, rows));
  query_row = λ tx v q m s. (answer (s.1 v m q), s);
  upsert = λ tx x (rows, seen). (ok 1, (rows, put x seen));
}

answer-ok : (o : Option Metadata) (x : Metadata) → answer o ≡ ok x → o ≡ some x
answer-ok o x h = ground arith

answer-absent : (o : Option Metadata) (e : Error) → answer o ≡ err e → o ≡ none
answer-absent o e h = ground arith

abbrev keeping_pool-IsPostgres : IsPostgres keeping_pool
keeping_pool-IsPostgres = record {
  committed = λ s. s.0;
  seen = λ s tx. s.1;
  acquire-rows = λ s. refl;
  release-rows = λ c s. refl;
  begin-rows = λ c iso s. refl;
  begin-seen = λ c iso s tx h. refl;
  rollback-rows = λ tx s. refl;
  commit-ok = λ tx s h. refl;
  commit-rows = λ tx s. inr refl;
  query-rows = λ tx v q m s. refl;
  query-seen = λ tx v q m s. refl;
  query-ok = λ tx v q m s x h. answer-ok (s.1 v m q) x h;
  query-absent = λ tx v q m s e h n. answer-absent (s.1 v m q) e h;
  upsert-rows = λ tx x s. refl;
  upsert-ok = λ tx x s n h. refl;
}

keeping_pool-IsForeign : IsForeign keeping_pool
unfolding errors_is
keeping_pool-IsForeign = record {
  acquire = λ s e h. cc;
  begin_tx = λ c iso s e h. cc;
  commit = λ tx s e h. cc;
  query_row = λ tx v q m s e h. ground arith;
}

new_metadata_repository-IsTable_example : IsTable (new_metadata_repository keeping_pool)
new_metadata_repository-IsTable_example =
    new_metadata_repository-IsTable keeping_pool keeping_pool-IsPostgres keeping_pool-IsForeign
