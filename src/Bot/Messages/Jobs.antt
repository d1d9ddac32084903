-- ===== src/Bot/Messages/Jobs.antt =====
-- A chat's message leaves the list of jobs alone, and a dispatching worker makes the steps of a run.
use cribe.Prelude.{
  String, Option, none, some, List, [], ◌∷◌, ◌≡◌, refl, ◌∙◌, ap, arith, inl, inr, lookup, ◌==◌,
  Bool-cases,
}
use cribe.Prelude.Decimal.{itoa}
use cribe.Exec.{Exec, attempt, ok, err, panic, Result-cases}
use cribe.Fsm.{StateType, State, Outcome, default}
use cribe.Fsm.Framing.{send_event-frame}
use cribe.Session.{Session, new_session, load}
use cribe.Bot.Services.{Services}
use cribe.Bot.World.{World}
use cribe.Bot.Messages.{
  Message, ParsingCtx, default_action, provide_fsm, parse_video_event, finished, parse_video,
  converse, respond, handle_message, dispatching_messages,
}
use cribe.Bot.Messages.Machine.{HasTable, jobs-parsing_action, send_event-HasTable}

module _ {S : Type 0} where
  table-keeps :
      (t : StateType) (state : State (ParsingCtx S) (World S))
      → lookup t provide_fsm.states ≡ some state
      → (c : ParsingCtx S) (w : World S) → (state.action c w).1.jobs ≡ w.jobs
  unfolding provide_fsm default_action
  table-keeps t state h c w = ground (arith, jobs-parsing_action c w)

module _ {S : Type 0} (d : Services S) where
  abbrev BotSession : Type 0
  BotSession = Session S (ParsingCtx S) (World S)

  finished-world :
      (s : BotSession) (w : World S) (o : Outcome (ParsingCtx S) (World S))
      → (finished d s w (some o)).1 ≡ o.2
  finished-world s w (ok u, m, w') = refl
  finished-world s w (err e, m, w') = refl
  finished-world s w (panic p, m, w') = refl

  parse_video-jobs :
      (message : Message) (s : BotSession) (w : World S)
      → HasTable s.machine
      → (parse_video d message s w).1.jobs ≡ w.jobs
  unfolding parse_video
  parse_video-jobs message s w table =
      let c : ParsingCtx S = record {
        services = d;
        message = message.text;
        chat_id = message.chat_id;
      } in
      let (o, e) = send_event-HasTable parse_video_event c s.machine w table in
      rw e (
        ap (λ (u : World S). u.jobs) (finished-world s w o)
        ∙ send_event-frame (λ (u : World S). u.jobs) provide_fsm.states table-keeps 2
            parse_video_event c s.machine w table o e)

  converse-jobs :
      (message : Message) (s : BotSession) (w : World S)
      → HasTable s.machine
      → (converse d message s w).1.jobs ≡ w.jobs
  unfolding converse
  converse-jobs message s w table = elim (Bool-cases (s.machine.curr == default)) [
    | inl e ↦ rw e (parse_video-jobs message s w table)
    | inr e ↦ rw e refl
  ]

  load-HasTable :
      (s t : BotSession) (b : S) → HasTable s.machine → (load s b).0 ≡ ok t → HasTable t.machine
  unfolding load
  load-HasTable s t b table h = ground arith

  handle_message-jobs :
      (message : Message) (w : World S) → (handle_message d message w).1.jobs ≡ w.jobs
  unfolding handle_message new_session
  handle_message-jobs message w =
      let fresh : BotSession = new_session (itoa message.from_id) d.session_backend provide_fsm in
      let w1 : World S = record w { outside = (load fresh w.outside).1 } in
      elim (Result-cases (load fresh w.outside).0) [
        | inl (s, g) ↦
            let same = converse-jobs message s w1 (load-HasTable fresh s w.outside refl g) in
            elim (Result-cases (converse d message s w1).0) [
              | inl (t, f) ↦ rw (g, f) same
              | inr (inl (e, f)) ↦ rw (g, f) same
              | inr (inr (p, f)) ↦ rw (g, f) same
            ]
        | inr (inl (e, g)) ↦ rw g refl
        | inr (inr (p, g)) ↦ rw g refl
      ]

  -- Whatever a message ends with, the loop goes on unless it panicked.
  attempt-jobs :
      (m rest : Exec (World S) (Unit {0}))
      → ((w : World S) → (m w).1.jobs ≡ w.jobs)
      → ((w : World S) → (rest w).1.jobs ≡ w.jobs)
      → (w : World S) → (attempt m (λ e. rest) (λ _. rest) w).1.jobs ≡ w.jobs
  attempt-jobs m rest first then_same w = elim (Result-cases (m w).0) [
    | inl (u, g) ↦ rw g (then_same (m w).1 ∙ first w)
    | inr (inl (e, g)) ↦ rw g (then_same (m w).1 ∙ first w)
    | inr (inr (p, g)) ↦ rw g (first w)
  ]

  respond-jobs :
      (robot : String) (command : Option String) (message : Message)
      → (rest : Exec (World S) (Unit {0})) → ((w : World S) → (rest w).1.jobs ≡ w.jobs)
      → (w : World S) → (respond d robot command message rest w).1.jobs ≡ w.jobs
  respond-jobs robot none message rest same w =
      attempt-jobs (handle_message d message) rest (handle_message-jobs message) same w
  respond-jobs robot (some command) message rest same w = ground arith

  -- The loop over the updates leaves the jobs in hand alone.
  pub dispatching_messages-jobs :
      (robot : String) (updates : List (Option Message)) (w : World S)
      → (dispatching_messages d robot updates w).1.jobs ≡ w.jobs
  unfolding dispatching_messages
  dispatching_messages-jobs robot [] w = refl
  dispatching_messages-jobs robot (none ∷ updates) w = dispatching_messages-jobs robot updates w
  dispatching_messages-jobs robot (some message ∷ updates) w =
      respond-jobs robot message.command message (dispatching_messages d robot updates)
        (dispatching_messages-jobs robot updates) w
