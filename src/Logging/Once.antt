-- ===== src/Logging/Once.antt =====
-- The default logger is built once.
use cribe.Prelude.{Option, none, ◌≡◌, arith}
use cribe.Exec.{ok}
use cribe.Logging.{Zap, LogState, new_logger, default_logger, with_logger, from_context}

module _ {L S : Type 0} (zap : Zap L S) where
  -- A logger that was put in a context is the one that is used. A context without one gives the
  -- default logger, which stays the same and is not built again, for any such context that follows.
  pub from_context-once :
      (ctx : Option L) (mine logger : L) (s : LogState L S)
      → (from_context zap none s).0 ≡ ok logger
      → let t = (from_context zap none s).1 in
        (from_context zap (with_logger zap ctx mine) t ≡ (ok mine, t))
        × (from_context zap none t ≡ (ok logger, t))
  unfolding from_context with_logger default_logger new_logger
  from_context-once ctx mine logger s h = ground arith
