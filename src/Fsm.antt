-- ===== src/Fsm.antt =====
-- pkg/botstate/fsm.go: the state machine. A map is an association list, `nil` is `none`, and an
-- action runs on a world `W` with an event context `C`.
pub mod Routes
pub mod Framing
pub mod Termination
use cribe.Prelude.{
  ℕ, zero, suc, String, Bool, Option, none, some, List, lookup, ◌==◌, if◌then◌else◌,
}
use cribe.Errors.{sentinel, event_rejected, state_not_found}
use cribe.Exec.{Result, ok, err, panic, Exec}

abbrev pub StateType : Type 0
StateType = String

abbrev pub EventType : Type 0
EventType = String

-- const Default and const Noop
abbrev pub default : StateType
default = "init"

abbrev pub noop : EventType
noop = "noop"

abbrev pub Events : Type 0
Events = List (EventType × StateType)

pub record State (C W : Type 0) : Type 0 where
  pub action : C → Exec W EventType
  pub events : Option Events

abbrev pub States : Type 0 → Type 0 → Type 0
States C W = List (StateType × State C W)

pub record StateMachine (C W : Type 0) : Type 0 where
  pub prev : StateType
  pub curr : StateType
  pub states : States C W

module _ {C W : Type 0} where
  abbrev pub current : StateMachine C W → StateType
  current m = m.curr

  abbrev pub previous : StateMachine C W → StateType
  previous m = m.prev

abbrev next_of : Option StateType → Result StateType
next_of none = err (sentinel event_rejected)
next_of (some next) = ok next

abbrev next_in : EventType → Option Events → Result StateType
next_in event none = err (sentinel event_rejected)
next_in event (some events) = next_of (lookup event events)

module _ {C W : Type 0} where
  unfoldable pub new_state_machine : States C W → StateMachine C W
  new_state_machine states = record { prev = ""; curr = ""; states = states }

  abbrev next_from : EventType → Option (State C W) → Result StateType
  next_from event none = err (sentinel event_rejected)
  next_from event (some state) = next_in event state.events

  unfoldable pub get_next_state : EventType → StateMachine C W → Result StateType
  get_next_state event m = next_from event (lookup m.curr m.states)

-- One round of the loop of `SendEvent`: it returns, or goes on with another event.
pub data Round (C W : Type 0) : Type 0 where
  stop : Result (Unit {0}) → StateMachine C W → W → Round C W
  again : EventType → StateMachine C W → W → Round C W

-- What `SendEvent` returns, and the machine and the world that it leaves.
abbrev pub Outcome : Type 0 → Type 0 → Type 0
Outcome C W = Result (Unit {0}) × StateMachine C W × W

module _ {C W : Type 0} where
  abbrev pub move : StateType → StateMachine C W → StateMachine C W
  move next m = record m { prev = m.curr; curr = next }

  abbrev pub executed : StateMachine C W → Result EventType × W → Round C W
  executed m (ok event, w) = if event == noop then stop (ok tt) m w else again event m w
  executed m (err e, w) = stop (err e) m w
  executed m (panic p, w) = stop (panic p) m w

  abbrev enter : StateType → Option (State C W) → C → StateMachine C W → W → Round C W
  enter next none c m w = stop (err (sentinel state_not_found)) m w
  enter next (some state) c m w = executed (move next m) (state.action c w)

  -- Whatever the error of `getNextState` is, `SendEvent` returns ErrEventRejected.
  abbrev follow : Result StateType → C → StateMachine C W → W → Round C W
  follow (ok next) c m w = enter next (lookup next m.states) c m w
  follow (err e) c m w = stop (err (sentinel event_rejected)) m w
  follow (panic p) c m w = stop (panic p) m w

  unfoldable pub round : EventType → C → StateMachine C W → W → Round C W
  unfolding get_next_state
  round event c m w = follow (get_next_state event m) c m w

  abbrev pub resume :
      (EventType → StateMachine C W → W → Option (Outcome C W)) → Round C W → Option (Outcome C W)
  resume rest (stop r m w) = some (r, m, w)
  resume rest (again event m w) = rest event m w

  -- `none`: the loop has not returned within the fuel.
  unfoldable pub send_event : ℕ → EventType → C → StateMachine C W → W → Option (Outcome C W)
  send_event zero event c m w = none
  send_event (suc fuel) event c m w =
      resume (λ event' m' w'. send_event fuel event' c m' w') (round event c m w)
