-- ===== src/Db/Transaction.antt =====
-- internal/db/database.go: a function run in a transaction.
pub mod Ending
use cribe.Prelude.{ℕ, String, Bool, Option, none, some, List, ◌∷◌}
use cribe.Errors.{Error}
use cribe.Exec.{Result, ok, err, Exec, pure, fail, annotate, attempt, deferring, is_ok, ◌>>=◌, ◌>>◌}
use cribe.Db.{Metadata}

-- What the program calls of the pgx pool. Connections and transactions are handles. The two queries
-- are those of metadata.go: the row of a video, quality and mime, and the upsert, which gives the
-- number of rows affected.
pub record Pool (S : Type 0) : Type 0 where
  pub acquire : Exec S ℕ
  pub release : ℕ → S → S
  pub begin_tx : ℕ → String → Exec S ℕ
  pub rollback : ℕ → Exec S (Unit {0})
  pub commit : ℕ → Exec S (Unit {0})
  pub query_row : ℕ → String → String → String → Exec S Metadata
  pub upsert : ℕ → Metadata → Exec S ℕ

-- What was done to connections and transactions, and whether it succeeded.
pub data Action : Type 0 where
  acquired : Action
  released : ℕ → Action
  began : Action
  rolled_back : ℕ → Action
  committed : ℕ → Action

pub record DbState (S : Type 0) : Type 0 where
  pub outside : S
  -- The latest action comes first.
  pub actions : List (Action × Bool)

module _ {S A : Type 0} where
  abbrev pub logged : Action → Exec S A → Exec (DbState S) A
  logged a m w =
      let (r, s) = m w.outside in (r, record { outside = s; actions = (a, is_ok r) ∷ w.actions })

  -- A call that is no such action.
  abbrev pub unlogged : Exec S A → Exec (DbState S) A
  unlogged m w = let (r, s) = m w.outside in (r, record w { outside = s })

module _ {S : Type 0} (pool : Pool S) where
  abbrev release_after : ℕ → Exec (DbState S) (Unit {0})
  release_after conn = logged (released conn) (λ s. (ok tt, pool.release conn s))

module _ {S A : Type 0} (pool : Pool S) where
  -- The rest of a transaction that `f` has left with an error: the error of the rollback is dropped.
  unfoldable pub abort : ℕ → Error → Exec (DbState S) A
  abort tx e =
      attempt (logged (rolled_back tx) (pool.rollback tx))
        (λ tx_err. annotate "rollback tx" (fail e)) (λ _. fail e)

  unfoldable pub run_tx : String → (ℕ → Exec (DbState S) A) → ℕ → Exec (DbState S) A
  run_tx iso_level f conn = do
    tx ← annotate "starting tx" (logged began (pool.begin_tx conn iso_level))
    attempt (f tx) (abort tx)
        (λ a. annotate "commit tx" (logged (committed tx) (pool.commit tx)) >>= λ _. pure a)

  -- `f` assigns to a variable of its caller; here it returns the value.
  unfoldable pub in_tx : String → (ℕ → Exec (DbState S) A) → Exec (DbState S) A
  in_tx iso_level f = do
    conn ← annotate "acquiring connection" (logged acquired pool.acquire)
    deferring (release_after pool conn) (run_tx iso_level f conn)
