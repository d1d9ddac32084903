-- ===== src/Bot/Messages/Requests.antt =====
-- What a chat's message asks of the workers.
use cribe.Prelude.{ℕ, String, ◌+◌, ◌⊎◌, ◌∷◌, ◌≡◌, refl, length, ap, sym, arith, ◌∙◌, inl, inr}
use cribe.Prelude.Decimal.{itoa}
use cribe.Exec.{ok, Result-cases}
use cribe.Bytes.{Bytes}
use cribe.Json.Numbers.RoundTrip.{InInt64}
use cribe.Session.{load}
use cribe.Session.RoundTrip.{IsKeeping}
use cribe.Bot.Services.{Services, Video, zero_payload, queue_fetching, queue_uploading}
use cribe.Bot.World.{World, fetching}
use cribe.Bot.World.History.{published, published_to, messages, told, length-messages}
use cribe.Bot.Encoding.{encode_payload}
use cribe.Bot.Messages.Machine.{parsing_action-requests}
use cribe.Bot.Fetch.{fetch}
use cribe.Bot.Consumers.{handle_fetching}
use cribe.Bot.Consumers.Bookkeeping.{with_job}
use cribe.Bot.Consumers.Loops.{answers}
use cribe.Bot.Messages.{Message, parsing_action, handle_message}
use cribe.Bot.Messages.Sessions.{
  LeavesSessions, AllDefault, fresh, load-at_default, context, converse_default, identity_of,
  loaded,
}
use cribe.Bot.Pipeline.Resuming.{parsing_action-answered}

module _ {S : Type 0} (d : Services S) (keeping : IsKeeping d.session_backend)
    (leaves : LeavesSessions d keeping) where
  -- A message makes no calls but those of the parsing, in the world in which its session was loaded.
  calls-handle_message :
      (message : Message) (w : World S)
      → AllDefault d keeping w.outside
      → ((handle_message d message w).1.calls ≡ w.calls)
        ⊎ ((handle_message d message w).1.calls
            ≡ (parsing_action
                (context d keeping leaves message)
                (loaded d keeping leaves message w)).1.calls)
  unfolding handle_message
  calls-handle_message message w all =
      let identity = identity_of d keeping leaves message in
      let w1 = loaded d keeping leaves message w in
      elim (Result-cases (load (fresh d keeping identity) w.outside).0) [
        | inl (u, g) ↦
            let (prev, e) = load-at_default d keeping identity w.outside u all g in
            elim (converse_default d keeping leaves message identity prev w1) [
              | inl (r, c) ↦ inr (rw (g ∙ ap ok e, c) refl)
              | inr (p, c) ↦ inr (rw (g ∙ ap ok e, c) refl)
            ]
        | inr (inl (e, g)) ↦ inl (rw g refl)
        | inr (inr (p, g)) ↦ inl (rw g refl)
      ]

  -- The message that the broker takes is a request for the video that was found for the chat's link.
  pub handle_message-requests :
      (message : Message) (w : World S) (queue : String) (body : Bytes)
      → AllDefault d keeping w.outside
      → messages (handle_message d message w).1.calls ≡ (queue, body) ∷ messages w.calls
      → (video : Video) × ((d.youtube_client.get_video_context message.text
            (load (fresh d keeping (itoa message.from_id)) w.outside).1).0
          ≡ ok video)
        × (body
            ≡ encode_payload
                (record zero_payload { video_id = video.id; chat_id = message.chat_id }))
  handle_message-requests message w queue body all h = elim (calls-handle_message message w all) [
    | inl same ↦ absurd (grind (arith, length-messages))
    | inr same ↦
        let c = context d keeping leaves message in
        let w1 = loaded d keeping leaves message w in
        let taken : messages (parsing_action c w1).1.calls ≡ (queue, body) ∷ messages w.calls =
          sym (ap messages same) ∙ h in
        let (video, found, last) = parsing_action-requests c w1 (
          omega (
            arith,
            ap length taken,
            length-messages (parsing_action c w1).1.calls,
            length-messages w.calls,
          )) in
        (video, found, ground (arith, taken, last))
  ]

  -- If the backend keeps what it is given, the other services leave the sessions alone and the stored
  -- ones are in the default state: where a chat's message makes the broker take a message, it is a
  -- request for the video that was found for the chat's link, and the worker that takes it up, at
  -- any later time, answers it exactly once: the broker takes one message for the queue of uploads,
  -- or one text to a chat is tried, and not both; after a cancellation or a panic there is no answer.
  -- The chat's id has 64 bits.
  pub handle_message-answered :
      (message : Message) (w : World S) (channel : ℕ) (u : World S)
      → InInt64 message.chat_id
      → AllDefault d keeping w.outside
      → published (handle_message d message w).1.calls ≡ published w.calls + 1
      → (video : Video) × (body : Bytes) × ((d.youtube_client.get_video_context message.text
            (load (fresh d keeping (itoa message.from_id)) w.outside).1).0
          ≡ ok video)
        × (messages (handle_message d message w).1.calls
            ≡ (queue_fetching, body) ∷ messages w.calls)
        × (let p = record zero_payload { video_id = video.id; chat_id = message.chat_id } in
            let u' = (handle_fetching d channel body u).1 in
            published_to queue_uploading u'.calls + told u'.calls
            ≡ published_to queue_uploading u.calls
              + told u.calls
              + answers (fetch d channel p (with_job d fetching p u)).0)
  handle_message-answered message w channel u small all h =
      elim (calls-handle_message message w all) [
        | inl same ↦ absurd (omega (arith, ap published same))
        | inr same ↦
            let (video, body, found, last, once) =
              parsing_action-answered (context d keeping leaves message)
                (loaded d keeping leaves message w) d channel u small
                (sym (ap published same) ∙ h) in
            (video, body, found, ap messages same ∙ last, once)
      ]
