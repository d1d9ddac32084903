-- ===== src/Db/Transaction/Ending.antt =====
-- How transactions end.
use cribe.Prelude.{ℕ, ◌+◌, String, Bool, true, false, List, ◌∷◌, ◌≡◌, arith, count, if◌then◌else◌}
use cribe.Errors.{Error}
use cribe.Exec.{ok, err, Exec, is_ok}
use cribe.Db.Transaction.{
  Pool, Action, acquired, released, began, rolled_back, committed, DbState, abort, run_tx, in_tx,
}

abbrev is_acquired : Action × Bool → Bool
is_acquired (acquired, done) = done
is_acquired (a, done) = false

abbrev is_released : Action × Bool → Bool
is_released (released conn, done) = true
is_released (a, done) = false

abbrev is_committed : Action × Bool → Bool
is_committed (committed tx, done) = done
is_committed (a, done) = false

abbrev is_rolled_back : Action × Bool → Bool
is_rolled_back (rolled_back tx, done) = true
is_rolled_back (a, done) = false

-- How many connections were taken, were given back, and how many transactions were committed, and
-- were asked to roll back.
abbrev pub acquisitions : List (Action × Bool) → ℕ
acquisitions = count is_acquired

abbrev pub releases : List (Action × Bool) → ℕ
releases = count is_released

abbrev pub commits : List (Action × Bool) → ℕ
commits = count is_committed

abbrev pub rollbacks : List (Action × Bool) → ℕ
rollbacks = count is_rolled_back

module _ {S A : Type 0} (pool : Pool S) (iso_level : String) (f : ℕ → Exec (DbState S) A)
    (plain : (tx : ℕ) (w : DbState S) → (f tx w).1.actions ≡ w.actions) where
  run_tx-actions :
      (conn : ℕ) (w : DbState S)
      → let (r, w') = run_tx pool iso_level f conn w in
        (acquisitions w'.actions ≡ acquisitions w.actions)
        × (releases w'.actions ≡ releases w.actions)
        × (commits w'.actions ≡ commits w.actions + (if is_ok r then 1 else 0))
  unfolding run_tx abort
  run_tx-actions conn w = grind (arith, plain)

  -- Of a function that does not touch connections itself: every connection that is taken is given
  -- back, on every path, also after a panic; and the transaction is committed exactly if no error is
  -- returned.
  pub in_tx-actions :
      (w : DbState S)
      → let (r, w') = in_tx pool iso_level f w in
        (acquisitions w'.actions + releases w.actions
          ≡ releases w'.actions + acquisitions w.actions)
        × (commits w'.actions ≡ commits w.actions + (if is_ok r then 1 else 0))
  unfolding in_tx
  in_tx-actions w = grind (arith, run_tx-actions)

  -- If a begun transaction's function returns an error and does not touch connections itself, the
  -- transaction is asked to roll back, once.
  pub run_tx-rollback :
      (conn tx : ℕ) (w : DbState S) (e : Error)
      → (pool.begin_tx conn iso_level w.outside).0 ≡ ok tx
      → (f tx (record {
        outside = (pool.begin_tx conn iso_level w.outside).1;
        actions = (began, true) ∷ w.actions;
      })).0
        ≡ err e
      → rollbacks (run_tx pool iso_level f conn w).1.actions ≡ rollbacks w.actions + 1
  unfolding run_tx abort
  run_tx-rollback conn tx w e b h = grind (arith, plain)
