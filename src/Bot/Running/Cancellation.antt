-- ===== src/Bot/Running/Cancellation.antt =====
-- Why a run's context is cancelled, and how the shared `err` loses an error.
use cribe.Prelude.{
  ℕ, ◌+◌, ◌<◌, true, false, Option, none, some, List, [], ◌∷◌, ◌++◌, ◌≡◌, ◌≢◌, subst, refl, arith,
  ◌⊎◌, inl, inr,
}
use cribe.Errors.{Error}
use cribe.Bot.World.{World, Job}
use cribe.Bot.Updates.{Options}
use cribe.Bot.Running.{
  finished, Worker, Running, launched, AllFinished, Step, takes, goes_on, ends, gives_up, returns,
  cancels, leaves, dispatched, stops, concludes, interrupts, Reach, here, next,
}

-- How many workers returned an error.
abbrev pub errors : List (Option Error) → ℕ
errors [] = 0
errors (none ∷ rest) = errors rest
errors (some e ∷ rest) = 1 + errors rest

at_place :
    (before after : List Worker) (x : Worker)
    → AllFinished (before ++ x ∷ after)
    → x.stage ≡ finished
at_place [] after x h = h.0
at_place (y ∷ before) after x h = at_place before after x h.1

module _ {S : Type 0} where
  -- What a cancellation can come of: the context that `Run` was given, an error that a worker
  -- returned, or the end of `Run`, which waits for all workers.
  abbrev pub Cause : Running S → Type 0
  Cause r = (r.interrupted ≡ true) ⊎ ((0 < errors r.returned) ⊎ AllFinished r.workers)

  -- Updates stop only behind a cancellation, which has a cause; and an error in `err` was returned.
  record IsCaused (r : Running S) : Type 0 where
    stopped : r.receiving ≡ false → r.cancelled ≡ true
    caused : r.cancelled ≡ true → Cause r
    held : (e : Error) → r.err ≡ some e → 0 < errors r.returned

  still_caused :
      (r : Running S) {P : Type 0} (before after : List Worker) (x : Worker)
      → r.workers ≡ before ++ x ∷ after
      → x.stage ≢ finished
      → Cause r
      → (r.interrupted ≡ true) ⊎ ((0 < errors r.returned) ⊎ P)
  still_caused r before after x e n (inl a) = inl a
  still_caused r before after x e n (inr (inl b)) = inr (inl b)
  still_caused r before after x e n (inr (inr f)) =
      absurd (n (at_place before after x (subst AllFinished e f)))

  -- A step of a worker that is not finished shows that not all are.
  moves :
      {r : Running S} (w : World S) (failed : List Job) (before after : List Worker) (x y : Worker)
      → r.workers ≡ before ++ x ∷ after
      → x.stage ≢ finished
      → IsCaused r
      → IsCaused (record r { world = w; workers = before ++ y ∷ after; failed = failed })
  moves {r} w failed before after x y e n c = record {
    stopped = c.stopped;
    caused = λ f. still_caused r before after x e n (c.caused f);
    held = c.held;
  }

  Step-IsCaused : {r t : Running S} → Step r t → IsCaused r → IsCaused t
  Step-IsCaused (takes before after kind p e) c = moves _ _ before after _ _ e (λ s. cc) c
  Step-IsCaused (goes_on w e) c = record { stopped = c.stopped; caused = c.caused; held = c.held }
  Step-IsCaused (ends before after kind p e) c = moves _ _ before after _ _ e (λ s. cc) c
  Step-IsCaused (gives_up before after kind p e) c = moves _ _ before after _ _ e (λ s. cc) c
  Step-IsCaused {r} (returns before after kind none e) c = record {
    stopped = c.stopped;
    caused = λ f. still_caused r before after _ e (λ s. cc) (c.caused f);
    held = λ x f. cc;
  }
  Step-IsCaused (returns before after kind (some x) e) c = record {
    stopped = c.stopped;
    caused = λ f. inr (inl (omega arith));
    held = λ y f. omega arith;
  }
  Step-IsCaused (cancels before after kind x e f) c = record {
    stopped = λ g. refl;
    caused = λ g. inr (inl (c.held x f));
    held = c.held;
  }
  Step-IsCaused (leaves before after kind e f) c = moves _ _ before after _ _ e (λ s. cc) c
  Step-IsCaused (dispatched before after e) c = moves _ _ before after _ _ e (λ s. cc) c
  Step-IsCaused (stops f) c = record { stopped = λ g. f; caused = c.caused; held = c.held }
  Step-IsCaused (concludes f) c = record {
    stopped = λ g. refl;
    caused = λ g. inr (inr f);
    held = c.held;
  }
  Step-IsCaused interrupts c = record { stopped = λ g. refl; caused = λ g. inl refl; held = c.held }

  launched-IsCaused : (opts : Options) (w : World S) → IsCaused (launched opts w)
  unfolding launched
  launched-IsCaused opts w = record { stopped = λ g. cc; caused = λ g. cc; held = λ e g. cc }

  Reach-IsCaused : {r t : Running S} → Reach r t → IsCaused r → IsCaused t
  Reach-IsCaused here c = c
  Reach-IsCaused (next q st) c = Step-IsCaused st (Reach-IsCaused q c)

  -- However the goroutines interleave, a run stops receiving updates only when its context is
  -- cancelled, and that happens only if the context was done from outside, a worker returned an
  -- error, or all workers are finished, as they are when `Run` returns.
  pub cancelled-Reach :
      (opts : Options) (w : World S) (r : Running S)
      → Reach (launched opts w) r
      → (r.receiving ≡ false → r.cancelled ≡ true)
        × (r.cancelled ≡ true
            → (r.interrupted ≡ true) ⊎ ((0 < errors r.returned) ⊎ AllFinished r.workers))
  cancelled-Reach opts w r q =
      let c = Reach-IsCaused q (launched-IsCaused opts w) in (c.stopped, c.caused)
