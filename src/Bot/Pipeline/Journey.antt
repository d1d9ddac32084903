-- ===== src/Bot/Pipeline/Journey.antt =====
-- From a chat's message, through both queues, to the video in the chat.
use cribe.Prelude.{
  ℕ, ◌+◌, String, true, List, [], none, some, inl, inr, ◌∷◌, ◌≡◌, ◌≢◌, ◌∙◌, ap, sym, arith, length,
}
use cribe.Prelude.Decimal.{itoa}
use cribe.Exec.{ok, Result-cases}
use cribe.Bytes.{Bytes}
use cribe.Json.Numbers.RoundTrip.{InInt64}
use cribe.Session.RoundTrip.{IsKeeping}
use cribe.Bot.Services.{Payload, Services, Video, zero_payload, queue_fetching, queue_uploading}
use cribe.Bot.World.{World, fetching, uploading, publish}
use cribe.Bot.World.History.{published, messages, length-messages, latest, History}
use cribe.Bot.Encoding.{payload_json, encode_payload}
use cribe.Bot.Encoding.RoundTrip.{payload_json-unmarshal}
use cribe.Bot.Jobs.{add_job, delete_job}
use cribe.Bot.Jobs.Counts.{in_hand}
use cribe.Bot.Fetch.{fetch}
use cribe.Bot.Fetch.Publishing.{fetch-published}
use cribe.Bot.Fetch.Storing.{fetch-hands_over}
use cribe.Bot.Upload.Delivery.{videos_to}
use cribe.Bot.Consumers.{handle_fetching, handle_uploading, fetch_decoded, give_up, report}
use cribe.Bot.Consumers.Bookkeeping.{with_job}
use cribe.Bot.Messages.{Message, handle_message}
use cribe.Bot.Messages.Sessions.{LeavesSessions, AllDefault}
use cribe.Bot.Messages.Requests.{handle_message-requests}
use cribe.Bot.Pipeline.{KeepsStores, OnlyMissing}
use cribe.Bot.Pipeline.Delivery.{fetch-delivered}

-- The latest call is the latest message that the broker took.
latest-messages :
    (h : History) (k q : String) (a b : Bytes) (rest : List (String × Bytes))
    → latest h ≡ some (publish k a, true)
    → messages h ≡ (q, b) ∷ rest
    → a ≡ b
latest-messages [] k q a b rest e g = absurd (ground arith)
latest-messages (c ∷ h) k q a b rest e g = ground arith

module _ {S : Type 0} (d : Services S) where
  -- A video that YouTube gives is given under its id again.
  abbrev pub FindsAgain : Type 0
  FindsAgain =
      (url : String) (x : Video) (s : S)
      → (d.youtube_client.get_video_context url s).0 ≡ ok x
      → (y : Video) (t : S) → (d.youtube_client.get_video_context x.id t).0 ≡ ok y
      → y.id ≡ x.id

  -- A worker by which the broker takes a message has fetched with no error, and made no call behind that.
  fetch_decoded-published :
      (c : ℕ) (p : Payload) (v : World S)
      → published (fetch_decoded d c (p, none) v).1.calls ≡ published v.calls + 1
      → ((fetch d c p (with_job d fetching p v)).0 ≡ ok tt)
        × ((fetch_decoded d c (p, none) v).1.calls
            ≡ (fetch d c p (with_job d fetching p v)).1.calls)
        × ((fetch_decoded d c (p, none) v).1.outside
            ≡ (fetch d c p (with_job d fetching p v)).1.outside)
  unfolding fetch_decoded add_job delete_job give_up report
  fetch_decoded-published c p v h =
      let sent = fetch-published d c p (with_job d fetching p v) in
      elim (Result-cases (fetch d c p (with_job d fetching p v)).0) [
        | inl (x, g) ↦ ground arith
        | inr (inl (e, g)) ↦ absurd (ground arith)
        | inr (inr (e, g)) ↦ absurd (ground arith)
      ]

  -- The message that the worker hands over is its latest call.
  fetch_decoded-latest :
      (c : ℕ) (p : Payload) (v : World S) (queue : String) (body : Bytes)
      → messages (fetch_decoded d c (p, none) v).1.calls ≡ (queue, body) ∷ messages v.calls
      → ((fetch d c p (with_job d fetching p v)).0 ≡ ok tt)
        × ((fetch_decoded d c (p, none) v).1.outside
            ≡ (fetch d c p (with_job d fetching p v)).1.outside)
        × (latest (fetch d c p (with_job d fetching p v)).1.calls
            ≡ some (publish queue_uploading body, true))
  fetch_decoded-latest c p v queue body h =
      let w = with_job d fetching p v in
      let (done, calls, outside) = fetch_decoded-published c p v (
        omega (
          arith,
          ap length h,
          length-messages (fetch_decoded d c (p, none) v).1.calls,
          length-messages v.calls,
        )) in
      let (x, f, found, format, last) = fetch-hands_over d c p w done in
      let same =
        latest-messages (fetch d c p w).1.calls queue_uploading queue
          (encode_payload (record p { mime = f.mime_type; quality = f.quality })) body
          (messages v.calls) last (ap messages (sym calls) ∙ h) in
      (done, outside, last ∙ ap (λ b. some (publish queue_uploading b, true)) same)

module _ {S : Type 0} (d : Services S) (keeping : IsKeeping d.session_backend)
    (leaves : LeavesSessions d keeping) (keeps : KeepsStores d) (lookups : OnlyMissing d) where
  fetch_decoded-delivered :
      (p : Payload) (v u : World S) (c : ℕ) (body : Bytes) (other : String)
      → InInt64 p.chat_id
      → ((x : Video) (t : S)
          → (d.youtube_client.get_video_context p.video_id t).0 ≡ ok x
          → x.id ≡ p.video_id)
      → messages (fetch_decoded d c (p, none) v).1.calls
        ≡ (queue_uploading, body) ∷ messages v.calls
      → keeps.view u.outside ≡ keeps.view (fetch_decoded d c (p, none) v).1.outside
      → in_hand p.video_id uploading (handle_uploading d body u).1.jobs
        ≡ in_hand p.video_id uploading u.jobs
      → itoa p.chat_id ≢ other
      → let u' = (handle_uploading d body u).1 in
        (videos_to (itoa p.chat_id) u'.calls ≡ videos_to (itoa p.chat_id) u.calls + 1)
        × (videos_to other u'.calls ≡ videos_to other u.calls)
  fetch_decoded-delivered p v u c body other small again taken kept idle away =
      let (done, outside, last) = fetch_decoded-latest d c p v queue_uploading body taken in
      fetch-delivered d keeps lookups c p (with_job d fetching p v) body u other small done
        (λ x e. again x v.outside e) last (kept ∙ ap keeps.view outside) idle away

  -- If the backend keeps what it is given, the other services leave the sessions alone and the stored
  -- ones are in the default state, over stores that keep what they are given, whose lookups of an object
  -- fail only for want of it, and where YouTube gives a video that it has given under its id again: let a chat's message make the broker take a
  -- request, the worker that takes up this request at any later time make it take a message for the
  -- upload, and let the stores hold what they held after that when another worker takes this message
  -- up. If that one leaves as many uploads of each video in hand as before, it has sent exactly one
  -- video to the chat that wrote, and none to another chat. The chat's id has 64 bits.
  pub message-delivered :
      (message : Message) (w v u : World S) (c : ℕ) (request body : Bytes) (other : String)
      → InInt64 message.chat_id
      → AllDefault d keeping w.outside
      → FindsAgain d
      → messages (handle_message d message w).1.calls ≡ (queue_fetching, request) ∷ messages w.calls
      → messages (handle_fetching d c request v).1.calls
        ≡ (queue_uploading, body) ∷ messages v.calls
      → keeps.view u.outside ≡ keeps.view (handle_fetching d c request v).1.outside
      → ((id : String)
          → in_hand id uploading (handle_uploading d body u).1.jobs ≡ in_hand id uploading u.jobs)
      → itoa message.chat_id ≢ other
      → let u' = (handle_uploading d body u).1 in
        (videos_to (itoa message.chat_id) u'.calls ≡ videos_to (itoa message.chat_id) u.calls + 1)
        × (videos_to other u'.calls ≡ videos_to other u.calls)
  unfolding handle_fetching
  message-delivered message w v u c request body other small all again asked taken kept idle away =
      let (video, found, e) =
        handle_message-requests d keeping leaves message w queue_fetching request all asked in
      let p = record zero_payload { video_id = video.id; chat_id = message.chat_id } in
      let read =
        ap (payload_json.unmarshal zero_payload) e ∙ payload_json-unmarshal p zero_payload small in
      fetch_decoded-delivered p v u c body other small
        (λ x t h. again message.text video _ found x t h) (rw read at taken) (rw read at kept)
        (idle video.id) away
