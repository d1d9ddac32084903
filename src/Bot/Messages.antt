-- ===== src/Bot/Messages.antt =====
-- internal/bot/server.go: what a chat's message does.
pub mod Requests
pub mod Backends
pub mod Machine
pub mod Sessions
pub mod Isolation
pub mod Jobs
pub mod Dispatching
use cribe.Bot.Encoding.{payload_json}
use cribe.Prelude.{ℕ, String, ◌<>◌, Option, none, some, List, [], ◌∷◌, ◌==◌, if◌then◌else◌}
use cribe.Prelude.Decimal.{ℤ, itoa}
use cribe.Exec.{
  Result, ok, err, panic, Exec, pure, lift, raise, annotate, attempt, deferring, ◌>>=◌, ◌>>◌,
}
use cribe.Fsm.{
  StateType, EventType, States, StateMachine, default, noop, current, new_state_machine, Outcome,
  send_event,
}
use cribe.Session.{Session, new_session, load, flush}
use cribe.Bot.Services.{
  Services, new_message, markdown_message, zero_payload, queue_fetching, sending_message_error,
}
use cribe.Bot.World.{World, silent, get_video_context, send_chattable, chan, close, publish_to}

abbrev pub parse_video_event : EventType
parse_video_event = "parse_video"

abbrev pub go_to_default_event : EventType
go_to_default_event = "go_to_default"

abbrev pub parsing_video_state : StateType
parsing_video_state = "parsing_video"

-- ParsingCtx: the services stand for its clients. It is the only event context that is sent, so the
-- type assertion of `ParsingAction.Execute` always succeeds.
pub record ParsingCtx (S : Type 0) : Type 0 where
  pub services : Services S
  pub message : String
  pub chat_id : ℤ

module _ {S : Type 0} where
  -- A message to the chat, whose failure is only logged.
  unfoldable pub tell : ParsingCtx S → String → Exec (World S) EventType
  tell ctx text =
      attempt (send_chattable ctx.services (new_message ctx.chat_id text))
        (λ e. pure go_to_default_event) (λ _. pure go_to_default_event)

  -- DefaultAction.Execute
  unfoldable pub default_action : ParsingCtx S → Exec (World S) EventType
  default_action ctx = pure noop

  -- ParsingAction.Execute
  unfoldable pub parsing_action : ParsingCtx S → Exec (World S) EventType
  unfolding tell
  parsing_action ctx =
      attempt (get_video_context ctx.services ctx.message) (λ e. tell ctx sending_message_error)
        (λ video.
          attempt
            (lift (
              payload_json.marshal
                (record zero_payload { video_id = video.id; chat_id = ctx.chat_id })))
            (λ e. tell ctx sending_message_error)
            (λ encoded.
              attempt (chan ctx.services) (λ e. tell ctx sending_message_error)
                (λ channel. deferring (close ctx.services channel) (
                  attempt (publish_to ctx.services channel queue_fetching encoded)
                    (λ e. tell ctx sending_message_error)
                    (λ _. tell ctx "Starting to download the video")))))

  unfoldable pub provide_fsm : StateMachine (ParsingCtx S) (World S)
  unfolding new_state_machine
  provide_fsm = new_state_machine (
      (
        default,
        record {
          action = default_action;
          events = some ((parse_video_event, parsing_video_state) ∷ []);
        },
      )
      ∷ (
        parsing_video_state,
        record { action = parsing_action; events = some ((go_to_default_event, default) ∷ []) },
      )
      ∷ [])

-- tgbotapi.Message: the sender's id, the chat, the text, and `Command()` where `IsCommand()`.
pub record Message : Type 0 where
  pub from_id : ℤ
  pub chat_id : ℤ
  pub text : String
  pub command : Option String

module _ {S : Type 0} (d : Services S) where
  abbrev BotSession : Type 0
  BotSession = Session S (ParsingCtx S) (World S)

  -- Two rounds are enough for the machine of `provideFSM`, so the last case is never met.
  abbrev finished :
      BotSession → World S → Option (Outcome (ParsingCtx S) (World S)) → Result BotSession × World S
  finished s w none = (panic "out of fuel", w)
  finished s w (some (ok u, m, w')) = (ok (record s { machine = m }), w')
  finished s w (some (err e, m, w')) = (err e, w')
  finished s w (some (panic p, m, w')) = (panic p, w')

  unfoldable pub parse_video : Message → BotSession → Exec (World S) BotSession
  parse_video message s w = finished s w (
      send_event 2 parse_video_event
        (record { services = d; message = message.text; chat_id = message.chat_id }) s.machine w)

  -- if session.Current() == botstate.Default { … }
  unfoldable pub converse : Message → BotSession → Exec (World S) BotSession
  converse message session =
      if current session.machine == default
      then annotate "send session event" (parse_video message session)
      else pure session

  unfoldable pub handle_message : Message → Exec (World S) (Unit {0})
  handle_message message = do
    let fresh = new_session (itoa message.from_id) d.session_backend provide_fsm
    session ← annotate "unable load session" (silent (load fresh))
    session' ← converse message session
    annotate "session flush" (silent (flush session'))

  abbrev start_command_text : String
  start_command_text = "start"

  -- The robot of the greeting is an emoji of a library.
  abbrev start_command_message : String → String
  start_command_message robot =
      "Hi, this is a bot"
      <> (robot
          <> (" for downloading videos from youtube\n\n"
              <> ("Just send a link to the youtube video and follow the further instructions\n"
                  <> "\n*source code:* [github](https://github.com/robotomize/cribe)")))

  module _ (robot : String) where
    abbrev handle_command : Message → String → Exec (World S) (Unit {0})
    handle_command message command =
        if command == start_command_text
        then attempt
            (send_chattable d (markdown_message message.chat_id (start_command_message robot)))
            (λ e. pure tt) (λ _. pure tt)
        else pure tt

    -- The body of the loop: after a command it returns, and `rest` is not run.
    abbrev pub respond :
        Option String → Message → Exec (World S) (Unit {0}) → Exec (World S) (Unit {0})
    respond (some command) message rest = handle_command message command
    respond none message rest = attempt (handle_message message) (λ e. rest) (λ _. rest)

    -- The loop over the updates; an update without a message is `none`.
    unfoldable pub dispatching_messages : List (Option Message) → Exec (World S) (Unit {0})
    dispatching_messages [] = pure tt
    dispatching_messages (none ∷ updates) = dispatching_messages updates
    dispatching_messages (some message ∷ updates) =
        respond message.command message (dispatching_messages updates)
