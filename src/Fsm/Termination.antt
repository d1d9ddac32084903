-- ===== src/Fsm/Termination.antt =====
-- When the loop of `SendEvent` returns, and what it leaves alone.
use cribe.Prelude.{ℕ, zero, suc, ◌+◌, ◌<◌, ◌≡◌, refl, ◌⊎◌, inl, inr, some, arith}
use cribe.Errors.{Error, sentinel, event_rejected}
use cribe.Exec.{Result, err}
use cribe.Fsm.{
  EventType, StateMachine, Round, stop, again, get_next_state, round, Outcome, send_event,
}

module _ {C W : Type 0} where
  -- An event that the current state does not list is refused, and changes nothing.
  pub send_event_rejected :
      (fuel : ℕ) (event : EventType) (c : C) (m : StateMachine C W) (w : W) (e : Error)
      → get_next_state event m ≡ err e
      → send_event (suc fuel) event c m w ≡ some (err (sentinel event_rejected), m, w)
  unfolding send_event round
  send_event_rejected fuel event c m w e h = rw h

  pub Round-cases :
      (o : Round C W)
      → ((r : Result (Unit {0})) × (m : StateMachine C W) × (w : W) × (o ≡ stop r m w))
        ⊎ ((event : EventType) × (m : StateMachine C W) × (w : W) × (o ≡ again event m w))
  Round-cases (stop r m w) = inl (r, m, w, refl)
  Round-cases (again event m w) = inr (event, m, w, refl)

  -- A loop that returns within some fuel returns the same with more.
  pub send_event_more_fuel :
      (fuel extra : ℕ) (event : EventType) (c : C) (m : StateMachine C W) (w : W)
      → {o : Outcome C W} → send_event fuel event c m w ≡ some o
      → send_event (fuel + extra) event c m w ≡ some o
  unfolding send_event
  send_event_more_fuel zero extra event c m w h = cc
  send_event_more_fuel (suc fuel) extra event c m w h =
      let e : suc fuel + extra ≡ suc (fuel + extra) = omega arith in
      rw e (elim (Round-cases (round event c m w)) [
        | inl (r, m', w', s) ↦ rw s (rw s at h)
        | inr (event', m', w', s) ↦
            rw s (send_event_more_fuel fuel extra event' c m' w' (rw s at h))
      ])

  module _ (Inv : StateMachine C W → Type 0) (measure : StateMachine C W → ℕ)
      (falls : (event : EventType) (c : C) (m : StateMachine C W) (w : W)
        → (event' : EventType) (m' : StateMachine C W) (w' : W) → Inv m
        → round event c m w ≡ again event' m' w'
        → Inv m' × (measure m' < measure m)) where
    -- If an invariant holds again and a measure falls with every round that goes on, fuel above the
    -- measure is enough for any event: the loop returns.
    pub send_event_total :
        (fuel : ℕ) (event : EventType) (c : C) (m : StateMachine C W) (w : W)
        → Inv m
        → measure m < fuel
        → (o : Outcome C W) × (send_event fuel event c m w ≡ some o)
    unfolding send_event
    send_event_total zero event c m w i h = absurd (omega arith)
    send_event_total (suc fuel) event c m w i h = elim (Round-cases (round event c m w)) [
      | inl (r, m', w', s) ↦ ((r, m', w'), rw s)
      | inr (event', m', w', s) ↦
          let (i', less) = falls event c m w event' m' w' i s in
          rw s (send_event_total fuel event' c m' w' i' (omega arith))
    ]
