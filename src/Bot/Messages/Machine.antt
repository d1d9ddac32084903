-- ===== src/Bot/Messages/Machine.antt =====
-- The machine of a chat: what one message makes it do.
use cribe.Bot.Encoding.{payload_json, encode_payload}
use cribe.Prelude.{
  ◌∷◌, ℕ, ◌<◌, ◌==◌, eq_iff, eq_refl, if◌then◌else◌, ◌+◌, String, some, ◌≡◌, ◌≢◌, ap, ◌∙◌, arith,
  ◌⊎◌, inl, inr,
}
use cribe.Errors.{Error}
use cribe.Exec.{ok, err, panic, Result-cases}
use cribe.Fsm.{
  StateType, EventType, StateMachine, Outcome, again, default, send_event, round, get_next_state,
}
use cribe.Fsm.Termination.{send_event_total}
use cribe.Bot.Services.{Video, zero_payload, queue_fetching}
use cribe.Bot.World.{World}
use cribe.Prelude.Decimal.{itoa}
use cribe.Bot.World.History.{messages, told, told_to, published, promised}
use cribe.Bot.Messages.{
  ParsingCtx, parsing_action, default_action, provide_fsm, parse_video_event, go_to_default_event,
  parsing_video_state,
}

module _ {S : Type 0} where
  -- The action of parsing always asks for the default state next, on every error path too.
  parsing_action-next :
      (c : ParsingCtx S) (w : World S) (e : EventType)
      → (parsing_action c w).0 ≡ ok e
      → e ≡ go_to_default_event
  unfolding parsing_action
  parsing_action-next c w e h = ground arith

  parsing_action-no_error :
      (c : ParsingCtx S) (w : World S) (e : Error) → (parsing_action c w).0 ≢ err e
  unfolding parsing_action
  parsing_action-no_error c w e h = ground arith

  -- Parsing that does not panic tries exactly one text to the chat, and it promises a download
  -- exactly if the broker took the request for it.
  pub parsing_action-told :
      (c : ParsingCtx S) (w : World S) (e : EventType)
      → (parsing_action c w).0 ≡ ok e
      → let w' = (parsing_action c w).1 in
        (told w'.calls ≡ told w.calls + 1)
        × (promised w'.calls + published w.calls ≡ published w'.calls + promised w.calls)
  unfolding parsing_action
  parsing_action-told c w e h = ground arith

  pub parsing_action-told_to :
      (c : ParsingCtx S) (w : World S) (e : EventType)
      → (parsing_action c w).0 ≡ ok e
      → told_to (itoa c.chat_id) (parsing_action c w).1.calls ≡ told_to (itoa c.chat_id) w.calls + 1
  unfolding parsing_action
  parsing_action-told_to c w e h = ground (arith, eq_refl (itoa c.chat_id))

  -- Where parsing makes the broker take a message, it is a request on the queue of fetches, with the
  -- id of the video that was found for the chat's link and with the chat itself.
  pub parsing_action-requests :
      (c : ParsingCtx S) (w : World S)
      → published (parsing_action c w).1.calls ≡ published w.calls + 1
      → (video : Video) × ((c.services.youtube_client.get_video_context c.message w.outside).0
          ≡ ok video)
        × (messages (parsing_action c w).1.calls
            ≡ (
              queue_fetching,
              encode_payload (record zero_payload { video_id = video.id; chat_id = c.chat_id }),
            )
              ∷ messages w.calls)
  unfolding parsing_action payload_json
  parsing_action-requests c w h =
      elim (Result-cases (c.services.youtube_client.get_video_context c.message w.outside).0) [
        | inl (video, g) ↦ (video, g, ground arith)
        | inr (inl (e, g)) ↦ absurd (ground arith)
        | inr (inr (e, g)) ↦ absurd (ground arith)
      ]

  pub jobs-parsing_action : (c : ParsingCtx S) (w : World S) → (parsing_action c w).1.jobs ≡ w.jobs
  unfolding parsing_action
  jobs-parsing_action c w = ground arith

module _ {S : Type 0} where
  -- The machine of `provideFSM` in the default state, as a session loads it.
  abbrev pub at_default : StateType → StateMachine (ParsingCtx S) (World S)
  at_default prev = record provide_fsm { curr = default; prev = prev }

  -- From the default state a request to parse returns within two rounds: it runs the parsing action
  -- once, and ends in the default state with the parsing state before it; or that action panics.
  pub send_event-provide_fsm :
      (c : ParsingCtx S) (prev : StateType) (w : World S)
      → let (r, w') = parsing_action c w in
        ((r ≡ ok go_to_default_event)
          × (send_event 2 parse_video_event c (at_default prev) w
              ≡ some (ok tt, at_default parsing_video_state, w')))
        ⊎ ((p : String) × (r ≡ panic p)
            × (send_event 2 parse_video_event c (at_default prev) w
                ≡ some (
                  panic p,
                  record provide_fsm { curr = parsing_video_state; prev = default },
                  w',
                )))
  unfolding send_event round get_next_state default_action provide_fsm
  send_event-provide_fsm c prev w = elim (Result-cases (parsing_action c w).0) [
    | inl (e, h) ↦ let next = h ∙ ap ok (parsing_action-next c w e h) in inl (next, rw next)
    | inr (inl (e, h)) ↦ absurd (parsing_action-no_error c w e h)
    | inr (inr (p, h)) ↦ inr (p, h, rw h)
  ]

  -- The machine has the table of `provideFSM`.
  abbrev pub HasTable : StateMachine (ParsingCtx S) (World S) → Type 0
  HasTable m = m.states ≡ provide_fsm.states

  -- How many rounds can still go on.
  abbrev pub rounds_left : StateMachine (ParsingCtx S) (World S) → ℕ
  rounds_left m = if m.curr == default then 1 else 0

  pub provide_fsm-falls :
      (event : EventType) (c : ParsingCtx S) (m : StateMachine (ParsingCtx S) (World S))
      → (w : World S) (event' : EventType) (m' : StateMachine (ParsingCtx S) (World S))
      → (w' : World S) → HasTable m
      → round event c m w ≡ again event' m' w'
      → HasTable m' × (rounds_left m' < rounds_left m)
  unfolding round get_next_state default_action provide_fsm
  provide_fsm-falls event c m w event' m' w' table h = ground (
    arith,
    eq_iff m.curr default,
    eq_iff default m.curr,
    eq_iff parsing_video_state m.curr,
    eq_iff parse_video_event event,
    eq_iff go_to_default_event event,
  )

  -- With the table of `provideFSM`, any event in any state returns within two rounds.
  pub send_event-HasTable :
      (event : EventType) (c : ParsingCtx S) (m : StateMachine (ParsingCtx S) (World S))
      → (w : World S) → HasTable m
      → (o : Outcome (ParsingCtx S) (World S)) × (send_event 2 event c m w ≡ some o)
  send_event-HasTable event c m w table =
      send_event_total HasTable rounds_left provide_fsm-falls 2 event c m w table (ground arith)
