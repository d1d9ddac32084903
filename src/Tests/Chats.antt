-- ===== src/Tests/Chats.antt =====
-- Messages of chats at concrete inputs.
use cribe.Json.Quoting.{escape, quote}
use cribe.Json.Scanner.{parse}
use cribe.Json.Fields.{unmarshal}
use cribe.Prelude.{◌+◌, lookup, none, some, [], ◌∷◌, ◌≡◌, refl, arith}
use cribe.Prelude.Decimal.{pos, itoa}
use cribe.Exec.{ok}
use cribe.Fsm.{default, send_event, round, get_next_state, Outcome}
use cribe.Fsm.Routes.{Route, send_event-Route}
use cribe.Session.{new_session, load, flush}
use cribe.Bytes.{Bytes}
use cribe.Bot.Services.{Video, zero_payload, queue_fetching, queue_uploading, Services}
use cribe.Bot.World.{World, fetching}
use cribe.Bot.World.History.{told, told_to, published, published_to, messages}
use cribe.Bot.Messages.{
  ParsingCtx, Message, parsing_action, default_action, provide_fsm, parse_video_event,
  go_to_default_event, parsing_video_state, tell, parse_video, converse, handle_message,
  dispatching_messages,
}
use cribe.Bot.Messages.Machine.{at_default, HasTable, send_event-HasTable}
use cribe.Bot.Messages.Sessions.{AllDefault, fresh, handle_message-told}
use cribe.Bot.Messages.Requests.{handle_message-answered}
use cribe.Bot.Consumers.{handle_fetching}
use cribe.Bot.Consumers.Loops.{answers}
use cribe.Bot.Consumers.Bookkeeping.{with_job}
use cribe.Bot.Fetch.{fetch}
use cribe.Bot.Messages.Dispatching.{dispatching_messages_stops, dispatching_messages-AllDefault}
use cribe.Bot.Messages.Isolation.{handle_message-isolated}
use cribe.Session.Encoding.{state_json, encode_state}
use cribe.Bot.Encoding.{payload_json}
use cribe.Tests.Fake.{Outside, sessions_keeping, services, fresh_world, leaves}

abbrev bot : Services Outside
bot = services none none ""

abbrev link : Message
link = record { from_id = pos 42; chat_id = pos 42; text = "https://youtu.be/v1"; command = none }

abbrev command : Message
command = record link { text = "/start"; command = some "start" }

abbrev pub context : ParsingCtx Outside
context = record { services = bot; message = "https://youtu.be/v1"; chat_id = pos 42 }

parsing_action_test : (parsing_action context fresh_world).0 ≡ ok go_to_default_event
unfolding parsing_action tell payload_json
parsing_action_test = refl

at_default_table : HasTable (at_default {S = Outside} "")
unfolding provide_fsm
at_default_table = refl

send_event-HasTable_example :
    (o : Outcome (ParsingCtx Outside) (World Outside)) × (send_event 2 parse_video_event context
        (at_default "")
        fresh_world
      ≡ some o)
send_event-HasTable_example =
    send_event-HasTable parse_video_event context (at_default "") fresh_world at_default_table

send_event_test :
    send_event 2 parse_video_event context (at_default "") fresh_world
    ≡ some (ok tt, at_default parsing_video_state, (parsing_action context fresh_world).1)
unfolding send_event round get_next_state provide_fsm parsing_action default_action tell
    payload_json
send_event_test = refl

send_event-Route_example : Route (at_default {S = Outside} "") (at_default parsing_video_state)
send_event-Route_example =
    send_event-Route 2 parse_video_event context (at_default "") fresh_world send_event_test

-- One session is stored, in the default state.
abbrev with_session : World Outside
with_session = record fresh_world {
  outside = ("42", encode_state (record { current = default; previous = "" })) ∷ [];
}

with_session-AllDefault : AllDefault bot sessions_keeping with_session.outside
with_session-AllDefault k v h = ("", ground arith)

handle_message_test : (handle_message bot link with_session).0 ≡ ok tt
unfolding handle_message load flush new_session converse parse_video send_event round get_next_state
    provide_fsm parsing_action default_action tell itoa state_json unmarshal parse quote escape
    payload_json
handle_message_test = refl

handle_message-told_example :
    let w' = (handle_message bot link with_session).1 in
    (told_to "42" w'.calls ≡ 0 + 1) × (told w'.calls ≡ 0 + 1)
unfolding itoa
handle_message-told_example =
    handle_message-told bot sessions_keeping (leaves none none "") link with_session
      with_session-AllDefault handle_message_test

published_test : published (handle_message bot link with_session).1.calls ≡ 0 + 1
unfolding handle_message load new_session itoa state_json unmarshal parse quote escape converse
    parse_video send_event round provide_fsm parsing_action payload_json default_action
published_test = refl

handle_message-answered_example :
    (found : Video) × (body : Bytes) × ((bot.youtube_client.get_video_context link.text
        (load (fresh bot sessions_keeping "42") with_session.outside).1).0
      ≡ ok found)
    × (messages (handle_message bot link with_session).1.calls ≡ (queue_fetching, body) ∷ [])
    × (let p = record zero_payload { video_id = found.id; chat_id = pos 42 } in
        let u' = (handle_fetching bot 7 body fresh_world).1 in
        published_to queue_uploading u'.calls + told u'.calls
        ≡ 0 + 0 + answers (fetch bot 7 p (with_job bot fetching p fresh_world)).0)
unfolding itoa
handle_message-answered_example =
    handle_message-answered bot sessions_keeping (leaves none none "") link with_session 7
      fresh_world (omega arith) with_session-AllDefault published_test

dispatching_messages-AllDefault_example :
    AllDefault bot sessions_keeping
      (dispatching_messages bot "!" (some link ∷ none ∷ some command ∷ []) with_session).1.outside
dispatching_messages-AllDefault_example =
    dispatching_messages-AllDefault bot "!" sessions_keeping (leaves none none "")
      (some link ∷ none ∷ some command ∷ []) with_session with_session-AllDefault

dispatching_messages_stops_example :
    dispatching_messages bot "!" (some link ∷ some command ∷ some link ∷ []) with_session
    ≡ dispatching_messages bot "!" (some link ∷ some command ∷ []) with_session
dispatching_messages_stops_example =
    dispatching_messages_stops bot "!" (some link ∷ []) command "start" refl (some link ∷ []) []
      with_session

-- Another sender's session is stored beside it.
abbrev with_sessions : World Outside
with_sessions = record fresh_world {
  outside =
      ("7", encode_state (record { current = default; previous = "" })) ∷ with_session.outside;
}

with_sessions-AllDefault : AllDefault bot sessions_keeping with_sessions.outside
with_sessions-AllDefault k v h = ("", ground arith)

handle_message-isolated_example :
    lookup (itoa (pos 7)) (handle_message bot link with_sessions).1.outside
    ≡ lookup (itoa (pos 7)) with_sessions.outside
handle_message-isolated_example =
    handle_message-isolated bot sessions_keeping (leaves none none "") link with_sessions (pos 7)
      with_sessions-AllDefault (λ e. ground arith)
