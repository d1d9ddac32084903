-- ===== src/Bot/Messages/Backends.antt =====
-- The backends that hold no session.
use cribe.Prelude.{◌≡◌}
use cribe.Exec.{panic}
use cribe.Session.{load, new_session}
use cribe.Session.Backends.{in_memory_backend}
use cribe.Bot.Services.{Services}
use cribe.Bot.World.{World}
use cribe.Bot.Messages.{Message, handle_message}

module _ {S : Type 0} (d : Services S) where
  -- With the in-memory backend the first message panics, whoever sends it, and nothing was done.
  pub handle_message-in_memory :
      d.session_backend ≡ in_memory_backend
      → (m : Message) (w : World S) → handle_message d m w ≡ (panic "implement me", w)
  unfolding handle_message load new_session in_memory_backend
  handle_message-in_memory e m w = rw e
