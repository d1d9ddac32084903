-- ===== src/Bot/Pipeline/Delivery.antt =====
-- A request, from its fetch to the video in the chat.
use cribe.Prelude.{
  ℕ, ◌+◌, String, some, none, ◌≡◌, ◌≢◌, eq_refl, arith, sym, subst, ap, ◌∙◌, inl, inr, true,
}
use cribe.Prelude.Decimal.{itoa}
use cribe.Exec.{ok, Result-cases}
use cribe.Bytes.{Bytes}
use cribe.Json.Numbers.RoundTrip.{InInt64}
use cribe.Bot.Services.{Payload, Services, Video, zero_payload, queue_uploading}
use cribe.Bot.World.{World, uploading, publish}
use cribe.Bot.World.History.{published, latest}
use cribe.Bot.Encoding.{encode_payload}
use cribe.Bot.Encoding.RoundTrip.{payload_json-unmarshal}
use cribe.Bot.Jobs.{add_job, delete_job}
use cribe.Bot.Jobs.Counts.{in_hand}
use cribe.Bot.Fetch.{fetch}
use cribe.Bot.Upload.{upload}
use cribe.Bot.Upload.Delivery.{videos_to, upload-delivers, upload-elsewhere}
use cribe.Bot.Consumers.{handle_uploading, upload_decoded, give_up, report}
use cribe.Bot.Consumers.Bookkeeping.{with_job, handle_uploading-in_hand}
use cribe.Bot.Pipeline.{KeepsStores, OnlyMissing}
use cribe.Bot.Pipeline.Resuming.{latest_body}
use cribe.Bot.Pipeline.Progress.{fetch-upload}

module _ {S : Type 0} (d : Services S) where
  -- What a worker's upload leaves in the history is what the upload itself leaves, and videos are sent
  -- by nothing else.
  upload_decoded-videos :
      (chat : String) (q : Payload) (u : World S)
      → videos_to chat (upload_decoded d (q, none) u).1.calls
        ≡ videos_to chat (upload d q (with_job d uploading q u)).1.calls
  unfolding upload_decoded add_job delete_job give_up report
  upload_decoded-videos chat q u = grind arith

  handle_uploading-videos :
      (chat : String) (q : Payload) (u : World S)
      → InInt64 q.chat_id
      → videos_to chat (handle_uploading d (encode_payload q) u).1.calls
        ≡ videos_to chat (upload d q (with_job d uploading q u)).1.calls
  unfolding handle_uploading
  handle_uploading-videos chat q u small =
      rw (payload_json-unmarshal q zero_payload small) (upload_decoded-videos chat q u)

  -- Whatever fails, the worker that takes up a message sends a video to no other chat than the
  -- message's.
  pub handle_uploading-elsewhere :
      (q : Payload) (chat : String) (u : World S)
      → InInt64 q.chat_id
      → itoa q.chat_id ≢ chat
      → videos_to chat (handle_uploading d (encode_payload q) u).1.calls ≡ videos_to chat u.calls
  handle_uploading-elsewhere q chat u small other =
      rw (handle_uploading-videos chat q u small)
        (upload-elsewhere d q chat (with_job d uploading q u) other)

module _ {S : Type 0} (d : Services S) where
  -- A job that is not left in hand is done.
  idle-ok :
      (q : Payload) (u : World S)
      → InInt64 q.chat_id
      → in_hand q.video_id uploading (handle_uploading d (encode_payload q) u).1.jobs
        ≡ in_hand q.video_id uploading u.jobs
      → (upload d q (with_job d uploading q u)).0 ≡ ok tt
  idle-ok q u small idle =
      let told = payload_json-unmarshal q zero_payload small in
      let left = handle_uploading-in_hand d (encode_payload q) q u q.video_id uploading told in
      elim (Result-cases (upload d q (with_job d uploading q u)).0) [
        | inl (x, g) ↦ g
        | inr (inl (e, g)) ↦ absurd (ground (arith, left, g, eq_refl q.video_id))
        | inr (inr (e, g)) ↦ absurd (ground (arith, left, g, eq_refl q.video_id))
      ]

  handle_uploading-delivers :
      (q : Payload) (u : World S)
      → InInt64 q.chat_id
      → published (upload d q (with_job d uploading q u)).1.calls ≡ published u.calls
      → in_hand q.video_id uploading (handle_uploading d (encode_payload q) u).1.jobs
        ≡ in_hand q.video_id uploading u.jobs
      → videos_to (itoa q.chat_id) (handle_uploading d (encode_payload q) u).1.calls
        ≡ videos_to (itoa q.chat_id) u.calls + 1
  handle_uploading-delivers q u small unpublished idle = omega (
    arith,
    unpublished,
    upload-delivers d q (with_job d uploading q u) (idle-ok q u small idle),
    handle_uploading-videos d (itoa q.chat_id) q u small,
  )

module _ {S : Type 0} (d : Services S) (keeps : KeepsStores d) (lookups : OnlyMissing d) where
  -- Over stores that keep what they are given, whose lookups of an object fail only for want of it, and
  -- where YouTube gives a video under the id that was asked for: the worker that takes up the message of a fetch that returned no error, when the stores
  -- hold what they held after the fetch, sends exactly one video to the chat of the request, and
  -- none to another chat, if it leaves the job not in hand. The chat's id has 64 bits.
  pub fetch-delivered :
      (c : ℕ) (p : Payload) (w : World S) (body : Bytes) (u : World S) (other : String)
      → InInt64 p.chat_id
      → (fetch d c p w).0 ≡ ok tt
      → ((v : Video)
          → (d.youtube_client.get_video_context p.video_id w.outside).0 ≡ ok v
          → v.id ≡ p.video_id)
      → latest (fetch d c p w).1.calls ≡ some (publish queue_uploading body, true)
      → keeps.view u.outside ≡ keeps.view (fetch d c p w).1.outside
      → in_hand p.video_id uploading (handle_uploading d body u).1.jobs
        ≡ in_hand p.video_id uploading u.jobs
      → itoa p.chat_id ≢ other
      → let u' = (handle_uploading d body u).1 in
        (videos_to (itoa p.chat_id) u'.calls ≡ videos_to (itoa p.chat_id) u.calls + 1)
        × (videos_to other u'.calls ≡ videos_to other u.calls)
  fetch-delivered c p w body u other small h same last kept idle away =
      let (q, video, to_chat, last', never) = fetch-upload d keeps lookups c p w h same in
      let small' = subst InInt64 (sym to_chat) small in
      let idle' =
        subst
          (λ b.
            in_hand q.video_id uploading (handle_uploading d b u).1.jobs
            ≡ in_hand q.video_id uploading u.jobs)
          (latest_body last last')
          (subst
            (λ v.
              in_hand v uploading (handle_uploading d body u).1.jobs ≡ in_hand v uploading u.jobs)
            (sym video) idle) in
      rw (latest_body last last', sym to_chat)
        (
          handle_uploading-delivers d q u small' (never (with_job d uploading q u) kept) idle',
          handle_uploading-elsewhere d q other u small' (λ e. away (ap itoa (sym to_chat) ∙ e)),
        )
