-- ===== src/Bot/Running/Moves.antt =====
-- One worker of a run goes on while all others wait.
use cribe.Prelude.{String, List, ◌∷◌, ◌++◌, ◌≡◌, ◌≢◌, refl, sym, ap, ◌∙◌, inl, inr}
use cribe.Exec.{Result, panic, Exec, annotate, deferring, ◌>>=◌, Result-cases}
use cribe.Bot.Services.{Payload}
use cribe.Bot.World.{World, JobKind}
use cribe.Bot.Jobs.{new_job, add_job, delete_job}
use cribe.Bot.Running.{
  consuming, Stage, waiting, busy, Worker, worker, Running, takes, goes_on, ends, gives_up, Reach,
  here, next,
}

-- It does not panic.
abbrev pub Calm : {A : Type 0} → Result A → Type 0
Calm r = (text : String) → r ≢ panic text

abbrev pub at : JobKind → List Worker → List Worker → Stage → List Worker
at k before after s = before ++ worker (consuming k) s ∷ after

module _ {S : Type 0} (k : JobKind) (before after : List Worker) (r : Running S) where
  -- From a run, the worker comes to a stage and a world, and nothing else of the run changes.
  pub record Moved (stage : Stage) (w : World S) : Type 0 where
    pub run : Running S
    pub reach : Reach r run
    pub workers : run.workers ≡ at k before after stage
    pub world : run.world ≡ w
    pub returned : run.returned ≡ r.returned
    pub cancelled : run.cancelled ≡ r.cancelled

  pub starting : r.workers ≡ at k before after waiting → Moved waiting r.world
  starting e = record {
    run = r;
    reach = here;
    workers = e;
    world = refl;
    returned = refl;
    cancelled = refl;
  }

  pub going : {s : Stage} {w : World S} (w2 : World S) → w2.jobs ≡ w.jobs → Moved s w → Moved s w2
  going w2 j m = record {
    run = record m.run { world = w2 };
    reach = next m.reach (goes_on w2 (j ∙ ap (λ u. u.jobs) (sym m.world)));
    workers = m.workers;
    world = refl;
    returned = m.returned;
    cancelled = m.cancelled;
  }

  pub taking :
      {w : World S} (p : Payload) → Moved waiting w → Moved (busy (new_job k p)) (add_job k p w).1
  taking p m = record {
    run = _;
    reach = next m.reach (takes before after k p m.workers);
    workers = refl;
    world = ap (λ u. (add_job k p u).1) m.world;
    returned = m.returned;
    cancelled = m.cancelled;
  }

  pub ending :
      {w : World S} (p : Payload)
      → Moved (busy (new_job k p)) w
      → Moved waiting (delete_job p.video_id k w).1
  ending p m = record {
    run = _;
    reach = next m.reach (ends before after k p m.workers);
    workers = refl;
    world = ap (λ u. (delete_job p.video_id k u).1) m.world;
    returned = m.returned;
    cancelled = m.cancelled;
  }

  pub giving_up : {w : World S} (p : Payload) → Moved (busy (new_job k p)) w → Moved waiting w
  giving_up p m = record {
    run = _;
    reach = next m.reach (gives_up before after k p m.workers);
    workers = refl;
    world = m.world;
    returned = m.returned;
    cancelled = m.cancelled;
  }

  -- What does not panic takes the worker along.
  abbrev pub Follows : {A : Type 0} → Exec (World S) A → Type 0
  Follows m = (w : World S) → Calm (m w).0 → Moved waiting w → Moved waiting (m w).1

  module _ {A : Type 0} where
    pub Follows-keeping :
        (m : Exec (World S) A) → ((w : World S) → (m w).1.jobs ≡ w.jobs) → Follows m
    Follows-keeping m keeps w h start = going (m w).1 (keeps w) start

    pub Follows-annotate :
        (text : String) (m : Exec (World S) A) → Follows m → Follows (annotate text m)
    Follows-annotate text m follows w h start = follows w (λ x e. h x (rw e refl)) start

    pub Follows-deferring :
        (last : Exec (World S) (Unit {0})) (m : Exec (World S) A)
        → Follows last
        → Follows m
        → Follows (deferring last m)
    Follows-deferring last m ends_well follows w h start =
        let w1 = (m w).1 in
        let calm : Calm (last w1).0 = λ x e. h x (rw e refl) in
        let calm_too : Calm (m w).0 = λ x e. elim (Result-cases (last w1).0) [
          | inl (u, g) ↦ h x (rw (e, g) refl)
          | inr (inl (y, g)) ↦ h x (rw (e, g) refl)
          | inr (inr (y, g)) ↦ calm y g
        ] in
        let moved = ends_well w1 calm (follows w calm_too start) in
        elim (Result-cases (last w1).0) [
          | inl (u, g) ↦ rw g moved
          | inr (inl (y, g)) ↦ rw g moved
          | inr (inr (y, g)) ↦ rw g moved
        ]

  pub Follows-bind :
      {A B : Type 0} (m : Exec (World S) A) (f : A → Exec (World S) B)
      → Follows m
      → ((a : A) → Follows (f a))
      → Follows (m >>= f)
  Follows-bind m f first rest w h start =
      let moved = first w (λ x e. h x (rw e refl)) start in
      elim (Result-cases (m w).0) [
        | inl (a, g) ↦ rw g (rest a (m w).1 (λ x e. h x (rw g e)) moved)
        | inr (inl (x, g)) ↦ rw g moved
        | inr (inr (x, g)) ↦ rw g moved
      ]
