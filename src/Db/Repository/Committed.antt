-- ===== src/Db/Repository/Committed.antt =====
-- What a transaction of the repository commits, over a pool that works like PostgreSQL.
use cribe.Prelude.{ℕ, ◌∷◌, true, ◌≡◌, ◌∙◌, arith, ◌⊎◌, inl, inr}
use cribe.Errors.{Error, record_not_found, errors_is}
use cribe.Exec.{Exec, ok, err, Result-cases}
use cribe.Db.Transaction.{Pool, DbState, acquired, began, logged, abort, run_tx, in_tx}
use cribe.Db.Repository.{read_committed}
use cribe.Db.Repository.Absence.{IsForeign}
use cribe.Db.Table.{Rows}
use cribe.Db.Repository.Postgres.{IsPostgres}

module _ {S : Type 0} (pool : Pool S) (postgres : IsPostgres pool) where
  abbrev pub rows_of : DbState S → Rows
  rows_of w = postgres.committed w.outside

  module _ {A : Type 0} (f : ℕ → Exec (DbState S) A) where
    pub in_tx-ok :
        (a : A) (w : DbState S)
        → (in_tx pool read_committed f w).0 ≡ ok a
        → (tx : ℕ) × (u : DbState S) × (postgres.seen u.outside tx ≡ rows_of w)
          × ((f tx u).0 ≡ ok a)
          × (rows_of (in_tx pool read_committed f w).1 ≡ postgres.seen (f tx u).1.outside tx)
    unfolding in_tx run_tx abort
    in_tx-ok a w h =
        let s1 = (pool.acquire w.outside).1 in
        elim (Result-cases (pool.acquire w.outside).0) [
          | inl (c, g) ↦
              let s2 = (pool.begin_tx c read_committed s1).1 in
              elim (Result-cases (pool.begin_tx c read_committed s1).0) [
                | inl (tx, g2) ↦
                    let u : DbState S = record {
                      outside = s2;
                      actions = (began, true) ∷ (acquired, true) ∷ w.actions;
                    } in
                    (
                      tx,
                      u,
                      postgres.begin-seen c read_committed s1 tx g2
                          ∙ postgres.acquire-rows w.outside,
                      ground arith,
                      ground (
                        arith,
                        postgres.commit-ok tx (f tx u).1.outside,
                        postgres.release-rows c (pool.commit tx (f tx u).1.outside).1,
                      ),
                    )
                | inr (inl (e, g2)) ↦ ground arith
                | inr (inr (e, g2)) ↦ ground arith
              ]
          | inr (inl (e, g)) ↦ ground arith
          | inr (inr (e, g)) ↦ ground arith
        ]

    -- A function that leaves the committed rows alone, run with a connection: the rows are as before, or
    -- they are what its transaction saw in the end.
    run_tx-rows :
        ((tx : ℕ) (u : DbState S) → rows_of (f tx u).1 ≡ rows_of u)
        → (c : ℕ) (w : DbState S)
        → (rows_of (run_tx pool read_committed f c w).1 ≡ rows_of w)
          ⊎ ((tx : ℕ) × (u : DbState S) × (a : A) × (postgres.seen u.outside tx ≡ rows_of w)
              × ((f tx u).0 ≡ ok a)
              × (rows_of (run_tx pool read_committed f c w).1
                  ≡ postgres.seen (f tx u).1.outside tx))
    unfolding run_tx abort
    run_tx-rows plain c w =
        let same = postgres.begin-rows c read_committed w.outside in
        elim (Result-cases (pool.begin_tx c read_committed w.outside).0) [
          | inl (tx, g) ↦
              let u : DbState S = record {
                outside = (pool.begin_tx c read_committed w.outside).1;
                actions = (began, true) ∷ w.actions;
              } in
              let s = (f tx u).1.outside in
              elim (Result-cases (f tx u).0) [
                | inl (a, h) ↦ elim (postgres.commit-rows tx s) [
                  | inl kept ↦ inl (ground (arith, plain tx u))
                  | inr made ↦ inr (
                    tx,
                    u,
                    a,
                    postgres.begin-seen c read_committed w.outside tx g,
                    h,
                    ground arith,
                  )
                ]
                | inr (inl (e, h)) ↦ inl (ground (arith, plain tx u, postgres.rollback-rows tx s))
                | inr (inr (e, h)) ↦ inl (ground (arith, plain tx u))
              ]
          | inr (inl (e, g)) ↦ inl (ground arith)
          | inr (inr (e, g)) ↦ inl (ground arith)
        ]

    pub in_tx-rows :
        ((tx : ℕ) (u : DbState S) → rows_of (f tx u).1 ≡ rows_of u)
        → (w : DbState S)
        → (rows_of (in_tx pool read_committed f w).1 ≡ rows_of w)
          ⊎ ((tx : ℕ) × (u : DbState S) × (a : A) × (postgres.seen u.outside tx ≡ rows_of w)
              × ((f tx u).0 ≡ ok a)
              × (rows_of (in_tx pool read_committed f w).1 ≡ postgres.seen (f tx u).1.outside tx))
    unfolding in_tx
    in_tx-rows plain w =
        let same = postgres.acquire-rows w.outside in
        elim (Result-cases (pool.acquire w.outside).0) [
          | inl (c, g) ↦
              let v = (logged acquired pool.acquire w).1 in
              let s = (run_tx pool read_committed f c v).1.outside in
              elim (run_tx-rows plain c v) [
                | inl kept ↦ inl (ground (arith, postgres.release-rows c s))
                | inr (tx, u, a, sees, done, made) ↦
                    inr (tx, u, a, sees ∙ same, done, ground (arith, postgres.release-rows c s))
              ]
          | inr (inl (e, g)) ↦ inl (ground arith)
          | inr (inr (e, g)) ↦ inl (ground arith)
        ]

    pub in_tx-absent :
        (foreign : IsForeign pool) (w : DbState S) (e : Error)
        → (in_tx pool read_committed f w).0 ≡ err e
        → errors_is e record_not_found ≡ true
        → (tx : ℕ) × (u : DbState S) × (x : Error) × (postgres.seen u.outside tx ≡ rows_of w)
          × ((f tx u).0 ≡ err x)
          × (errors_is x record_not_found ≡ true)
    unfolding in_tx run_tx abort errors_is
    in_tx-absent foreign w e h absent =
        let s1 = (pool.acquire w.outside).1 in
        elim (Result-cases (pool.acquire w.outside).0) [
          | inl (c, g) ↦
              let s2 = (pool.begin_tx c read_committed s1).1 in
              elim (Result-cases (pool.begin_tx c read_committed s1).0) [
                | inl (tx, g2) ↦
                    let u : DbState S = record {
                      outside = s2;
                      actions = (began, true) ∷ (acquired, true) ∷ w.actions;
                    } in
                    let s3 = (f tx u).1.outside in
                    elim (Result-cases (f tx u).0) [
                      | inl (a, g3) ↦ absurd (grind (arith, foreign.commit tx s3))
                      | inr (inl (x, g3)) ↦ (
                        tx,
                        u,
                        x,
                        postgres.begin-seen c read_committed s1 tx g2
                            ∙ postgres.acquire-rows w.outside,
                        g3,
                        ground arith,
                      )
                      | inr (inr (x, g3)) ↦ absurd (ground arith)
                    ]
                | inr (inl (x, g2)) ↦ absurd (grind (arith, foreign.begin_tx c read_committed s1))
                | inr (inr (x, g2)) ↦ absurd (ground arith)
              ]
          | inr (inl (x, g)) ↦ absurd (grind (arith, foreign.acquire w.outside))
          | inr (inr (x, g)) ↦ absurd (ground arith)
        ]
