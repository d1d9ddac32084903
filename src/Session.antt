-- ===== src/Session.antt =====
-- pkg/botstate/session.go: a session keeps the state of a machine under an identity in a backend.
-- The backend runs on a state `B`.
pub mod RedisConfig
pub mod Encoding
pub mod Backends
pub mod RoundTrip
use cribe.Prelude.{String, Bool, true, false, Option, none, some, if◌then◌else◌}
use cribe.Errors.{Error, sentinel, session_not_found, errors_is}
use cribe.Exec.{Result, ok, err, Exec, pure, fail, lift, annotate, attempt, ◌>>=◌, ◌>>◌}
use cribe.Bytes.{Bytes}
use cribe.Fsm.{StateMachine, default}
use cribe.Session.Encoding.{StateEncoded, zero_state, state_json}

-- interface Backend; `context.Context` is part of the state that the backend runs on.
pub record Backend (B : Type 0) : Type 0 where
  pub get : String → Exec B Bytes
  pub set : String → Bytes → Exec B (Unit {0})
  pub delete : String → Exec B (Unit {0})

-- struct Session, with its embedded StateMachine. `M` is the machine's type.
pub record Session (B C W : Type 0) : Type 0 where
  pub machine : StateMachine C W
  pub identity : String
  pub backend : Backend B

module _ {B C W : Type 0} where
  unfoldable pub new_session : String → Backend B → StateMachine C W → Session B C W
  new_session identity backend state = record {
    machine = state;
    identity = identity;
    backend = backend;
  }

  unfoldable pub clean : Session B C W → Exec B (Unit {0})
  clean s = annotate "unable delete state" (s.backend.delete s.identity)

module _ {B C W : Type 0} where
  unfoldable pub flush : Session B C W → Exec B (Unit {0})
  flush s = do
    encoded ←
        annotate "marshal json" (
          lift
            (state_json.marshal (record { current = s.machine.curr; previous = s.machine.prev })))
    annotate "unable flush state" (s.backend.set s.identity encoded)

  abbrev restored : Session B C W → StateEncoded × Option Error → Exec B (Session B C W)
  restored s (state, some e) = annotate "unable marshal" (fail e)
  restored s (state, none) =
      pure
        (record s { machine = record (s.machine) { curr = state.current; prev = state.previous } })

  -- Returns the session with the state loaded. After an error the caller drops the session.
  unfoldable pub load : Session B C W → Exec B (Session B C W)
  load s =
      attempt (s.backend.get s.identity)
        (λ e.
          if errors_is e session_not_found
          then pure (record s { machine = record (s.machine) { curr = default } })
          else annotate "get state from session" (fail e))
        (λ bytes. restored s (state_json.unmarshal zero_state bytes))
