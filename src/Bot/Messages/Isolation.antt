-- ===== src/Bot/Messages/Isolation.antt =====
-- The sessions of different senders do not touch each other: an identity is the decimal text of the
-- sender's id.
use cribe.Session.Encoding.RoundTrip.{state_json-marshal}
use cribe.Prelude.{String, ◌≡◌, ◌≢◌, refl, ap, ◌∙◌, inl, inr}
use cribe.Prelude.Decimal.{ℤ, itoa}
use cribe.Prelude.Decimal.Reading.{itoa-injective}
use cribe.Exec.{ok, Result-cases}
use cribe.Fsm.{StateType, default}
use cribe.Session.{new_session, load, flush}
use cribe.Session.RoundTrip.{IsKeeping}
use cribe.Bot.Services.{Services}
use cribe.Bot.World.{World}
use cribe.Bot.Messages.{Message, parsing_video_state, handle_message, parsing_action}
use cribe.Bot.Messages.Sessions.{
  LeavesSessions, AllDefault, encoded_default, fresh, session_at, context, identity_of, loaded,
  load-at_default, content-load, converse_default, content-parsing_action,
}

module _ {S : Type 0} (d : Services S) (keeping : IsKeeping d.session_backend) where
  -- A flush writes at most at its own identity.
  content-flush :
      (identity other : String) (prev : StateType) (s : S)
      → identity ≢ other
      → keeping.content (flush (session_at d keeping identity prev) s).1 other
        ≡ keeping.content s other
  unfolding flush
  content-flush identity other prev s n =
      rw (state_json-marshal (record { current = default; previous = prev }))
        (elim (keeping.set-any identity other (encoded_default d keeping prev) s) [
          | inl same ↦ same
          | inr (e, _) ↦ absurd (n e)
        ])

  module _ (leaves : LeavesSessions d keeping) where
    content-loaded :
        (message : Message) (w : World S) (k : String)
        → keeping.content (loaded d keeping leaves message w).outside k
          ≡ keeping.content w.outside k
    unfolding new_session
    content-loaded message w k =
        content-load d keeping (fresh d keeping (identity_of d keeping leaves message)) w.outside k
          refl

    -- If the backend keeps what it is given, the other services leave the sessions alone and the stored
    -- ones are in the default state, then a message leaves the stored session of every other sender
    -- as it was.
    pub handle_message-isolated :
        (message : Message) (w : World S) (other : ℤ)
        → AllDefault d keeping w.outside
        → message.from_id ≢ other
        → keeping.content (handle_message d message w).1.outside (itoa other)
          ≡ keeping.content w.outside (itoa other)
    unfolding handle_message
    handle_message-isolated message w other all n =
        let identity = itoa message.from_id in
        let j = itoa other in
        let apart : identity ≢ j = λ e. n (itoa-injective message.from_id other e) in
        let w1 = loaded d keeping leaves message w in
        let ctx = context d keeping leaves message in
        let kept1 = content-loaded message w j in
        let kept2 = content-parsing_action d keeping leaves message w1 j ∙ kept1 in
        elim (Result-cases (load (fresh d keeping identity) w.outside).0) [
          | inl (u, g) ↦
              let (prev, e) = load-at_default d keeping identity w.outside u all g in
              elim (converse_default d keeping leaves message identity prev w1) [
                | inl (r, c) ↦
                    rw (g ∙ ap ok e, c)
                      (content-flush identity j parsing_video_state
                          (parsing_action ctx w1).1.outside apart
                        ∙ kept2)
                | inr (p, c) ↦ rw (g ∙ ap ok e, c) kept2
              ]
          | inr (inl (e, g)) ↦ rw g kept1
          | inr (inr (p, g)) ↦ rw g kept1
        ]
