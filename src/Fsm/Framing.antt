-- ===== src/Fsm/Framing.antt =====
-- What no action of a machine changes, `SendEvent` does not change.
use cribe.Prelude.{
  ℕ, zero, suc, some, ◌≡◌, refl, ◌∙◌, inl, inr, lookup, Option-cases, Bool-cases, ap, sym, ◌==◌,
}
use cribe.Exec.{Result, ok, err, panic, Result-cases}
use cribe.Fsm.{
  StateType, EventType, State, States, StateMachine, Outcome, Round, stop, again, noop, move,
  executed, get_next_state, round, send_event,
}
use cribe.Fsm.Termination.{Round-cases}

module _ {C W X : Type 0} (f : W → X) (states : States C W)
    (keeps : (t : StateType) (state : State C W)
      → lookup t states ≡ some state
      → (c : C) (w : W) → f (state.action c w).1 ≡ f w) where
  -- A round leaves it, and leaves the table.
  abbrev Left : W → Round C W → Type 0
  Left w (stop r m w') = f w' ≡ f w
  Left w (again event m w') = (f w' ≡ f w) × (m.states ≡ states)

  executed-Left :
      (m : StateMachine C W) (r : Result EventType) (w w' : W)
      → f w' ≡ f w
      → m.states ≡ states
      → Left w (executed m (r, w'))
  executed-Left m (ok event) w w' same e = elim (Bool-cases (event == noop)) [
    | inl g ↦ rw g same
    | inr g ↦ rw g (same, e)
  ]
  executed-Left m (err x) w w' same e = same
  executed-Left m (panic x) w w' same e = same

  round-Left :
      (event : EventType) (c : C) (m : StateMachine C W) (w : W)
      → m.states ≡ states
      → Left w (round event c m w)
  unfolding round
  round-Left event c m w e = elim (Result-cases (get_next_state event m)) [
    | inl (next, g) ↦ elim (Option-cases (lookup next m.states)) [
      | inl n ↦ rw (g, n) refl
      | inr (state, n) ↦
          rw (g, n)
            (executed-Left (move next m) (state.action c w).0 w (state.action c w).1
              (keeps next state (ap (lookup next) (sym e) ∙ n) c w) e)
    ]
    | inr (inl (x, g)) ↦ rw g refl
    | inr (inr (x, g)) ↦ rw g refl
  ]

  -- With a table whose actions leave `f` of the world alone, whatever `SendEvent` returns, it has left it
  -- alone.
  pub send_event-frame :
      (fuel : ℕ) (event : EventType) (c : C) (m : StateMachine C W) (w : W)
      → m.states ≡ states
      → (o : Outcome C W) → send_event fuel event c m w ≡ some o
      → f o.2 ≡ f w
  unfolding send_event
  send_event-frame zero event c m w e o h = cc
  send_event-frame (suc fuel) event c m w e o h = elim (Round-cases (round event c m w)) [
    | inl (r, m', w', g) ↦
        let left : f w' ≡ f w = rw g at (round-Left event c m w e) in
        let same : o ≡ (r, m', w') = cc (rw g at h) in ap (λ (p : Outcome C W). f p.2) same ∙ left
    | inr (event', m', w', g) ↦
        let left : (f w' ≡ f w) × (m'.states ≡ states) = rw g at (round-Left event c m w e) in
        send_event-frame fuel event' c m' w' left.1 o (rw g at h) ∙ left.0
  ]
