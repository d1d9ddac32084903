-- ===== src/Bot/Messages/Dispatching.antt =====
-- The loop over the updates of a chat worker.
use cribe.Prelude.{String, Option, none, some, List, [], ◌∷◌, ◌++◌, ◌≡◌, refl, arith, inl, inr}
use cribe.Exec.{Exec, Result-cases}
use cribe.Session.RoundTrip.{IsKeeping}
use cribe.Bot.Services.{Services}
use cribe.Bot.World.{World}
use cribe.Bot.Messages.{Message, handle_message, handle_command, respond, dispatching_messages}
use cribe.Bot.Messages.Sessions.{LeavesSessions, AllDefault, handle_message-AllDefault}

module _ {S : Type 0} (d : Services S) (robot : String) where
  respond_same :
      (o : Option String) (x : Message) (m n : Exec (World S) (Unit {0}))
      → ((w : World S) → m w ≡ n w)
      → (w : World S) → respond d robot o x m w ≡ respond d robot o x n w
  respond_same (some c) x m n same w = refl
  respond_same none x m n same w = elim (Result-cases (handle_message d x w).0) [
    | inl (u, r) ↦ rw r (same _)
    | inr (inl (u, r)) ↦ rw r (same _)
    | inr (inr (u, r)) ↦ rw r
  ]

  -- What a worker does with its updates does not depend on those behind the first command: it
  -- returns after a command, and leaves the rest of the updates to the other workers.
  pub dispatching_messages_stops :
      (before : List (Option Message)) (m : Message) (c : String)
      → m.command ≡ some c
      → (after other : List (Option Message)) (w : World S)
      → dispatching_messages d robot (before ++ some m ∷ after) w
        ≡ dispatching_messages d robot (before ++ some m ∷ other) w
  unfolding dispatching_messages
  dispatching_messages_stops [] m c h after other w = rw h
  dispatching_messages_stops (none ∷ before) m c h after other w =
      dispatching_messages_stops before m c h after other w
  dispatching_messages_stops (some x ∷ before) m c h after other w =
      respond_same x.command x _ _ (dispatching_messages_stops before m c h after other) w

  module _ (keeping : IsKeeping d.session_backend) (leaves : LeavesSessions d keeping) where
    handle_command-AllDefault :
        (m : Message) (c : String) (w : World S)
        → AllDefault d keeping w.outside
        → AllDefault d keeping (handle_command d robot m c w).1.outside
    handle_command-AllDefault m c w all k v = grind (arith, leaves.send, all k v)

    respond-AllDefault :
        (o : Option String) (m : Message) (rest : Exec (World S) (Unit {0}))
        → ((w : World S) → AllDefault d keeping w.outside → AllDefault d keeping (rest w).1.outside)
        → (w : World S) → AllDefault d keeping w.outside
        → AllDefault d keeping (respond d robot o m rest w).1.outside
    respond-AllDefault (some c) m rest keeps w all = handle_command-AllDefault m c w all
    respond-AllDefault none m rest keeps w all =
        let all' = handle_message-AllDefault d keeping leaves m w all in
        elim (Result-cases (handle_message d m w).0) [
          | inl (u, r) ↦ rw r (keeps _ all')
          | inr (inl (u, r)) ↦ rw r (keeps _ all')
          | inr (inr (u, r)) ↦ rw r all'
        ]

    -- If the backend keeps what it is given and the other services leave the sessions alone, then
    -- stored sessions that are in the default state stay in it, whatever updates a worker gets and
    -- whatever fails.
    pub dispatching_messages-AllDefault :
        (updates : List (Option Message)) (w : World S)
        → AllDefault d keeping w.outside
        → AllDefault d keeping (dispatching_messages d robot updates w).1.outside
    unfolding dispatching_messages
    dispatching_messages-AllDefault [] w all = all
    dispatching_messages-AllDefault (none ∷ updates) w all =
        dispatching_messages-AllDefault updates w all
    dispatching_messages-AllDefault (some m ∷ updates) w all =
        respond-AllDefault m.command m _ (dispatching_messages-AllDefault updates) w all
