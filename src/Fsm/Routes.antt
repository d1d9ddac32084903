-- ===== src/Fsm/Routes.antt =====
-- `SendEvent` only takes transitions that the table declares.
use cribe.Prelude.{
  ℕ, zero, suc, ◌≡◌, refl, subst, ◌⊎◌, inl, inr, Option, some, lookup, arith, Option-cases,
}
use cribe.Exec.{Result, ok, err, panic}
use cribe.Fsm.{
  StateType, EventType, Events, State, StateMachine, Round, stop, again, move, executed, round,
  Outcome, resume, send_event,
}

module _ {C W : Type 0} where
  -- The table leads from the current state to `next` by `event`, and `next` has an entry.
  pub record Declares (m : StateMachine C W) (event : EventType) (next : StateType) : Type 0 where
    pub source : State C W
    pub events : Events
    pub target : State C W
    pub source_entry : lookup m.curr m.states ≡ some source
    pub source_events : source.events ≡ some events
    pub transition : lookup event events ≡ some next
    pub target_entry : lookup next m.states ≡ some target

  -- A sequence of declared transitions.
  pub data Route (m : StateMachine C W) : StateMachine C W → Type 0 where
    here : Route m m
    next :
        {n : StateMachine C W} (event : EventType) (to : StateType)
        → Route m n
        → Declares n event to
        → Route m (move to n)

  machine : Round C W → StateMachine C W
  machine (stop r m w) = m
  machine (again event m w) = m

  machine-executed :
      (m : StateMachine C W) (r : Result EventType) (w : W) → machine (executed m (r, w)) ≡ m
  unfolding machine
  machine-executed m (ok event) w = ground arith
  machine-executed m (err e) w = refl
  machine-executed m (panic p) w = refl

  -- A round leaves the machine as it is, or makes one declared transition.
  round-Declares :
      (event : EventType) (c : C) (m : StateMachine C W) (w : W)
      → (machine (round event c m w) ≡ m)
        ⊎ ((to : StateType) × Declares m event to × (machine (round event c m w) ≡ move to m))
  unfolding round machine
  round-Declares event c m w = elim (Option-cases (lookup m.curr m.states)) [
    | inl e ↦ inl (rw e)
    | inr (s, e) ↦ elim (Option-cases s.events) [
      | inl n ↦ inl (rw (e, n))
      | inr (events, es) ↦ elim (Option-cases (lookup event events)) [
        | inl n ↦ inl (rw (e, es, n))
        | inr (to, t) ↦ elim (Option-cases (lookup to m.states)) [
          | inl n ↦ inl (rw (e, es, t, n))
          | inr (target, te) ↦ inr (
            to,
            record {
              source = s;
              events = events;
              target = target;
              source_entry = e;
              source_events = es;
              transition = t;
              target_entry = te;
            },
            rw (e, es, t, te)
                (let (r, w') = target.action c w in machine-executed (move to m) r w'),
          )
        ]
      ]
    ]
  ]

  join : {a b c : StateMachine C W} → Route a b → Route b c → Route a c
  join p here = p
  join p (next event to q d) = next event to (join p q) d

  round-Route :
      (event : EventType) (c : C) (m : StateMachine C W) (w : W)
      → Route m (machine (round event c m w))
  round-Route event c m w = elim (round-Declares event c m w) [
    | inl e ↦ rw e here
    | inr (to, d, e) ↦ rw e (next event to here d)
  ]

  resume-Route :
      {m m' : StateMachine C W} {r : Result (Unit {0})} {w' : W}
      (rest : EventType → StateMachine C W → W → Option (Outcome C W)) (o : Round C W)
      → Route m (machine o)
      → ((event : EventType) (n : StateMachine C W) (w : W)
          → rest event n w ≡ some (r, m', w')
          → Route n m')
      → resume rest o ≡ some (r, m', w')
      → Route m m'
  unfolding machine
  resume-Route rest (stop r n w) p ih h = subst (Route _) (cc) p
  resume-Route rest (again event n w) p ih h = join p (ih event n w h)

  -- Whatever `SendEvent` returns, the machine has followed declared transitions from where it stood.
  pub send_event-Route :
      (fuel : ℕ) (event : EventType) (c : C) (m : StateMachine C W) (w : W)
      → {r : Result (Unit {0})} {m' : StateMachine C W} {w' : W}
      → send_event fuel event c m w ≡ some (r, m', w')
      → Route m m'
  unfolding send_event
  send_event-Route zero event c m w h = cc
  send_event-Route (suc fuel) event c m w h =
      resume-Route _ (round event c m w) (round-Route event c m w)
        (λ e n v. send_event-Route fuel e c n v) h
