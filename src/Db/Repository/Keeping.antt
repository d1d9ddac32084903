-- ===== src/Db/Repository/Keeping.antt =====
-- The repository is a table of metadata.
use cribe.Prelude.{ℕ, String, true, none, some, ◌≡◌, sym, Bool-cases, ◌∙◌, ap, arith, ◌⊎◌, inl, inr}
use cribe.Errors.{Error, record_not_found, no_rows, errors_is}
use cribe.Exec.{ok, err, Result-cases}
use cribe.Db.{Metadata}
use cribe.Db.Transaction.{Pool, DbState, in_tx}
use cribe.Db.Repository.{
  select_row, fetch_by_metadata, upsert_row, save, new_metadata_repository, read_committed,
}
use cribe.Db.Repository.Absence.{IsForeign}
use cribe.Db.Table.{Rows, put, IsTable}
use cribe.Db.Repository.Postgres.{IsPostgres}
use cribe.Db.Repository.Committed.{rows_of, in_tx-ok, in_tx-rows, in_tx-absent}

module _ {S : Type 0} (pool : Pool S) (postgres : IsPostgres pool) where
  select_row-seen :
      (v m q : String) (tx : ℕ) (u : DbState S)
      → (rows_of pool postgres (select_row pool v m q tx u).1 ≡ rows_of pool postgres u)
        × (postgres.seen (select_row pool v m q tx u).1.outside tx ≡ postgres.seen u.outside tx)
  unfolding select_row
  select_row-seen v m q tx u = (
    ground (arith, postgres.query-rows tx v q m u.outside),
    ground (arith, postgres.query-seen tx v q m u.outside),
  )

  select_row-ok :
      (v m q : String) (tx : ℕ) (u : DbState S) (x : Metadata)
      → (select_row pool v m q tx u).0 ≡ ok x
      → postgres.seen u.outside tx v m q ≡ some x
  unfolding select_row
  select_row-ok v m q tx u x h = grind (arith, postgres.query-ok tx v q m u.outside)

  select_row-absent :
      (foreign : IsForeign pool) (v m q : String) (tx : ℕ) (u : DbState S) (e : Error)
      → (select_row pool v m q tx u).0 ≡ err e
      → errors_is e record_not_found ≡ true
      → postgres.seen u.outside tx v m q ≡ none
  unfolding select_row errors_is
  select_row-absent foreign v m q tx u e h absent =
      let r = (pool.query_row tx v q m u.outside).0 in
      elim (Result-cases r) [
        | inl (x, g) ↦ absurd (ground arith)
        | inr (inl (x, g)) ↦ elim (Bool-cases (errors_is x no_rows)) [
          | inl n ↦ postgres.query-absent tx v q m u.outside x g n
          | inr n ↦ absurd (ground (arith, foreign.query_row tx v q m u.outside x g))
        ]
        | inr (inr (x, g)) ↦ absurd (ground arith)
      ]

  upsert_row-rows :
      (x : Metadata) (tx : ℕ) (u : DbState S)
      → rows_of pool postgres (upsert_row pool x tx u).1 ≡ rows_of pool postgres u
  unfolding upsert_row
  upsert_row-rows x tx u = ground (arith, postgres.upsert-rows tx x u.outside)

  upsert_row-ok :
      (x : Metadata) (tx : ℕ) (u : DbState S) (a : Unit {0})
      → (upsert_row pool x tx u).0 ≡ ok a
      → postgres.seen (upsert_row pool x tx u).1.outside tx ≡ put x (postgres.seen u.outside tx)
  unfolding upsert_row
  upsert_row-ok x tx u a h = grind (arith, postgres.upsert-ok tx x u.outside)

  fetch-absent :
      (foreign : IsForeign pool) (v m q : String) (e : Error) (w : DbState S)
      → (fetch_by_metadata pool v m q w).0 ≡ err e
      → errors_is e record_not_found ≡ true
      → rows_of pool postgres w v m q ≡ none
  unfolding fetch_by_metadata errors_is
  fetch-absent foreign v m q e w h absent =
      elim (Result-cases (in_tx pool read_committed (select_row pool v m q) w).0) [
        | inl (x, g) ↦ absurd (ground arith)
        | inr (inl (x, g)) ↦
            let (tx, u, y, first, got, same) =
              in_tx-absent pool postgres (select_row pool v m q) foreign w x g (ground arith) in
            ap (λ (rows : Rows). rows v m q) (sym first)
            ∙ select_row-absent foreign v m q tx u y got same
        | inr (inr (x, g)) ↦ absurd (ground arith)
      ]

  fetch-rows :
      (v m q : String) (w : DbState S)
      → rows_of pool postgres (fetch_by_metadata pool v m q w).1 ≡ rows_of pool postgres w
  unfolding fetch_by_metadata
  fetch-rows v m q w =
      let f = select_row pool v m q in
      elim (in_tx-rows pool postgres f (λ tx u. (select_row-seen v m q tx u).0) w) [
        | inl same ↦ same
        | inr (tx, u, x, first, got, made) ↦ made ∙ (select_row-seen v m q tx u).1 ∙ first
      ]

  save-put :
      (x : Metadata) (w : DbState S)
      → (save pool x w).0 ≡ ok tt
      → rows_of pool postgres (save pool x w).1 ≡ put x (rows_of pool postgres w)
  unfolding save
  save-put x w h =
      let (tx, u, first, got, made) =
        in_tx-ok pool postgres (upsert_row pool x) tt w (ground arith) in
      made ∙ upsert_row-ok x tx u tt got ∙ ap (put x) first

  save-rows :
      (x : Metadata) (w : DbState S)
      → (rows_of pool postgres (save pool x w).1 ≡ rows_of pool postgres w)
        ⊎ (rows_of pool postgres (save pool x w).1 ≡ put x (rows_of pool postgres w))
  unfolding save
  save-rows x w = elim (in_tx-rows pool postgres (upsert_row pool x) (upsert_row-rows x) w) [
    | inl same ↦ inl same
    | inr (tx, u, a, first, got, made) ↦ inr (made ∙ upsert_row-ok x tx u a got ∙ ap (put x) first)
  ]

  -- Over a pool that works like PostgreSQL and whose errors are not the repository's own, the
  -- repository is a table of the committed rows: a fetch answers the row that is there, and reports a
  -- missing record only where there is none; a save that returns no error has put the row, which keeps
  -- when it was first created, and nothing else is changed on any path.
  pub new_metadata_repository-IsTable : IsForeign pool → IsTable (new_metadata_repository pool)
  unfolding new_metadata_repository fetch_by_metadata save
  new_metadata_repository-IsTable foreign = record {
    rows = rows_of pool postgres;
    fetch-ok = λ v m q x w h.
        let (tx, u, first, got, _) =
          in_tx-ok pool postgres (select_row pool v m q) x w (ground arith) in
        cc (select_row-ok v m q tx u x got, ap (λ rows. rows v m q) first);
    fetch-absent = fetch-absent foreign;
    fetch-rows = fetch-rows;
    save-ok = save-put;
    save-rows = save-rows;
  }
