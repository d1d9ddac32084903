-- ===== src/Bot/Messages/Sessions.antt =====
-- The sessions that the backend holds stay in the default state, so every message is answered.
use cribe.Session.Encoding.{encode_state, zero_state}
use cribe.Session.Encoding.RoundTrip.{state_json-marshal, state_json-unmarshal}
use cribe.Prelude.{ℕ, ◌+◌, String, some, ◌≡◌, refl, sym, ap, ◌∙◌, arith, ◌⊎◌, inl, inr}
use cribe.Prelude.Decimal.{itoa}
use cribe.Exec.{ok, panic, Result-cases}
use cribe.Bytes.{Bytes}
use cribe.Fsm.{StateType, default}
use cribe.Session.{new_session, load, flush}
use cribe.Session.RoundTrip.{IsKeeping}
use cribe.Bot.Services.{Services, Chattable}
use cribe.Bot.World.{World}
use cribe.Bot.World.History.{told, told_to}
use cribe.Bot.Messages.{
  ParsingCtx, Message, BotSession, parsing_action, provide_fsm, go_to_default_event, parse_video,
  parsing_video_state, converse, handle_message,
}
use cribe.Bot.Messages.Machine.{
  at_default, send_event-provide_fsm, parsing_action-told, parsing_action-told_to,
}

module _ {S : Type 0} (d : Services S) (keeping : IsKeeping d.session_backend) where
  -- The other services leave the sessions alone.
  pub record LeavesSessions : Type 0 where
    pub get_video :
        (url : String) (s : S) (k : String)
        → keeping.content (d.youtube_client.get_video_context url s).1 k ≡ keeping.content s k
    pub chan : (s : S) (k : String) → keeping.content (d.broker.chan s).1 k ≡ keeping.content s k
    pub publish :
        (c : ℕ) (queue : String) (body : Bytes) (s : S) (k : String)
        → keeping.content (d.broker.publish c queue body s).1 k ≡ keeping.content s k
    pub close :
        (c : ℕ) (s : S) (k : String)
        → keeping.content (d.broker.close c s).1 k ≡ keeping.content s k
    pub send :
        (c : Chattable) (s : S) (k : String)
        → keeping.content (d.sender.send c s).1 k ≡ keeping.content s k

  abbrev pub encoded_default : StateType → Bytes
  encoded_default prev = encode_state (record { current = default; previous = prev })

  -- Every session that the backend holds is in the default state.
  abbrev pub AllDefault : S → Type 0
  AllDefault s =
      (k : String) (v : Bytes)
      → keeping.content s k ≡ some v
      → (prev : StateType) × (v ≡ encoded_default prev)

  abbrev pub fresh : String → BotSession d
  fresh identity = new_session identity d.session_backend provide_fsm

  abbrev pub session_at : String → StateType → BotSession d
  session_at identity prev = record {
    machine = at_default prev;
    identity = identity;
    backend = d.session_backend;
  }

  pub load-at_default :
      (identity : String) (s : S) (u : BotSession d)
      → AllDefault s
      → (load (fresh identity) s).0 ≡ ok u
      → (prev : StateType) × (u ≡ session_at identity prev)
  unfolding load new_session provide_fsm
  load-at_default identity s u all h = elim (Result-cases (d.session_backend.get identity s).0) [
    | inl (v, g) ↦
        let (prev, e) = all identity v (keeping.get-ok identity v s g) in
        (
          prev,
          ground (
            arith,
            state_json-unmarshal (record { current = default; previous = prev }) zero_state,
          ),
        )
    | inr (inl (e, g)) ↦ ("", ground arith)
    | inr (inr (p, g)) ↦ ("", ground arith)
  ]

  pub content-load :
      (t : BotSession d) (s : S) (k : String)
      → t.backend ≡ d.session_backend
      → keeping.content (load t s).1 k ≡ keeping.content s k
  unfolding load
  content-load t s k e = ground (arith, keeping.get-content t.identity k s)

  flush-AllDefault :
      (identity : String) (prev : StateType) (s : S)
      → AllDefault s
      → AllDefault (flush (session_at identity prev) s).1
  unfolding flush
  flush-AllDefault identity prev s all k v =
      rw (state_json-marshal (record { current = default; previous = prev })) λ h.
        elim (keeping.set-any identity k (encoded_default prev) s) [
          | inl same ↦ all k v (sym same ∙ h)
          | inr (_, set) ↦ (prev, ground arith)
        ]

  module _ (leaves : LeavesSessions) where
    abbrev pub context : Message → ParsingCtx S
    context message = record { services = d; message = message.text; chat_id = message.chat_id }

    pub content-parsing_action :
        (message : Message) (w : World S) (k : String)
        → keeping.content (parsing_action (context message) w).1.outside k
          ≡ keeping.content w.outside k
    unfolding parsing_action
    content-parsing_action message w k =
        grind (arith, leaves.get_video, leaves.chan, leaves.publish, leaves.close, leaves.send)

    -- From the default state a conversation ends in it, or its action panics.
    pub converse_default :
        (message : Message) (identity : String) (prev : StateType) (w : World S)
        → let (r, w') = parsing_action (context message) w in
          ((r ≡ ok go_to_default_event)
            × (converse d message (session_at identity prev) w
                ≡ (ok (session_at identity parsing_video_state), w')))
          ⊎ ((p : String) × (converse d message (session_at identity prev) w ≡ (panic p, w')))
    unfolding converse parse_video
    converse_default message identity prev w =
        elim (send_event-provide_fsm (context message) prev w) [
          | inl (r, e) ↦ inl (r, rw e)
          | inr (p, r, e) ↦ inr (p, rw e)
        ]

    abbrev pub identity_of : Message → String
    identity_of message = itoa message.from_id

    -- The world in which the conversation runs.
    abbrev pub loaded : Message → World S → World S
    loaded message w = record w { outside = (load (fresh (identity_of message)) w.outside).1 }

    loaded-AllDefault :
        (message : Message) (w : World S)
        → AllDefault w.outside
        → AllDefault (loaded message w).outside
    unfolding new_session
    loaded-AllDefault message w all k v h =
        all k v (sym (content-load (fresh (identity_of message)) w.outside k refl) ∙ h)

    parsed-AllDefault :
        (message : Message) (w : World S)
        → AllDefault w.outside
        → AllDefault (parsing_action (context message) w).1.outside
    parsed-AllDefault message w all k v h = all k v (sym (content-parsing_action message w k) ∙ h)

    -- If the backend keeps what it is given and the other services leave the sessions alone, then a
    -- message leaves stored sessions that are in the default state in that state, whatever fails on
    -- the way.
    pub handle_message-AllDefault :
        (message : Message) (w : World S)
        → AllDefault w.outside
        → AllDefault (handle_message d message w).1.outside
    unfolding handle_message
    handle_message-AllDefault message w all =
        let identity = identity_of message in
        let w1 = loaded message w in
        let all1 = loaded-AllDefault message w all in
        let all2 = parsed-AllDefault message w1 all1 in
        elim (Result-cases (load (fresh identity) w.outside).0) [
          | inl (u, g) ↦
              let (prev, e) = load-at_default identity w.outside u all g in
              elim (converse_default message identity prev w1) [
                | inl (r, c) ↦
                    rw (g ∙ ap ok e, c) (flush-AllDefault identity parsing_video_state _ all2)
                | inr (p, c) ↦ rw (g ∙ ap ok e, c) all2
              ]
          | inr (inl (e, g)) ↦ rw g all1
          | inr (inr (p, g)) ↦ rw g all1
        ]

    -- If the backend keeps what it is given, the other services leave the sessions alone and the
    -- stored ones are in the default state, then a message whose handling returns no error has tried
    -- exactly one text to the chat that it came from, and none to another chat.
    pub handle_message-told :
        (message : Message) (w : World S)
        → AllDefault w.outside
        → (handle_message d message w).0 ≡ ok tt
        → let chat = itoa message.chat_id in
          let w' = (handle_message d message w).1 in
          (told_to chat w'.calls ≡ told_to chat w.calls + 1) × (told w'.calls ≡ told w.calls + 1)
    unfolding handle_message
    handle_message-told message w all h =
        let identity = identity_of message in
        let w1 = loaded message w in
        elim (Result-cases (load (fresh identity) w.outside).0) [
          | inl (u, g) ↦
              let (prev, e) = load-at_default identity w.outside u all g in
              elim (converse_default message identity prev w1) [
                | inl (r, c) ↦
                    rw (g ∙ ap ok e, c)
                      (
                        parsing_action-told_to (context message) w1 _ r,
                        (parsing_action-told (context message) w1 _ r).0,
                      )
                | inr (p, c) ↦ cc (rw (g ∙ ap ok e, c) at h)
              ]
          | inr (inl (e, g)) ↦ cc (rw g at h)
          | inr (inr (p, g)) ↦ cc (rw g at h)
        ]
