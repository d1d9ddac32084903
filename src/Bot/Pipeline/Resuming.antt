-- ===== src/Bot/Pipeline/Resuming.antt =====
-- Messages between the parts of the program: what one of them publishes, another takes up.
use cribe.Prelude.{
  ℕ, ◌+◌, String, Bool, Option, none, some, ◌∷◌, ◌≡◌, arith, if◌then◌else◌, true, List, [], ◌++◌,
  ◌∙◌, eq_refl, refl, sym, subst,
}
use cribe.Errors.{Error}
use cribe.Exec.{Exec, ok, is_ok}
use cribe.Bytes.{Bytes}
use cribe.Json.Numbers.RoundTrip.{InInt64}
use cribe.Bot.Services.{Payload, Services, Video, zero_payload, queue_fetching, queue_uploading}
use cribe.Bot.World.{World, Call, Job, JobKind, fetching, uploading, publish}
use cribe.Bot.World.History.{published_to, messages, published, told, latest}
use cribe.Bot.Encoding.{payload_json, encode_payload}
use cribe.Prelude.Decimal.{ℤ}
use cribe.Bot.Encoding.RoundTrip.{payload_json-unmarshal}
use cribe.Bot.Jobs.{new_job, remove_first, add_job, delete_job}
use cribe.Bot.Jobs.Counts.{same_kind_refl}
use cribe.Bot.Fetch.{fetch}
use cribe.Bot.Upload.{upload}
use cribe.Bot.Consumers.{handle_fetching, handle_uploading, upload_decoded, give_up, report}
use cribe.Bot.Consumers.Bookkeeping.{with_job, handle_fetching-jobs, handle_uploading-jobs}
use cribe.Bot.Consumers.Loops.{answers, handle_fetching-answered}
use cribe.Bot.Finalization.Republishing.{message_of}
use cribe.Bot.Pipeline.{KeepsStores, OnlyMissing}
use cribe.Bot.Pipeline.Progress.{fetch-upload}
use cribe.Bot.Messages.{ParsingCtx, parsing_action}
use cribe.Bot.Messages.Machine.{parsing_action-requests}

module _ {S : Type 0} where
  -- Where parsing makes the broker take a message, it is a request for the video that was found for the
  -- chat's link, and the worker that takes it up, at any later time, answers it exactly once: the
  -- broker takes one message for the queue of uploads, or one text to a chat is tried, and not
  -- both; after a cancellation or a panic there is no answer. The chat's id has 64 bits.
  pub parsing_action-answered :
      (c : ParsingCtx S) (w : World S) (d : Services S) (channel : ℕ) (u : World S)
      → InInt64 c.chat_id
      → published (parsing_action c w).1.calls ≡ published w.calls + 1
      → (video : Video) × (body : Bytes) × ((c.services.youtube_client.get_video_context c.message
            w.outside).0
          ≡ ok video)
        × (messages (parsing_action c w).1.calls ≡ (queue_fetching, body) ∷ messages w.calls)
        × (let p = record zero_payload { video_id = video.id; chat_id = c.chat_id } in
            let u' = (handle_fetching d channel body u).1 in
            published_to queue_uploading u'.calls + told u'.calls
            ≡ published_to queue_uploading u.calls
              + told u.calls
              + answers (fetch d channel p (with_job d fetching p u)).0)
  parsing_action-answered c w d channel u small h =
      let (video, found, last) = parsing_action-requests c w h in
      let p = record zero_payload { video_id = video.id; chat_id = c.chat_id } in
      (
        video,
        encode_payload p,
        found,
        last,
        handle_fetching-answered d channel (encode_payload p) p u
            (payload_json-unmarshal p zero_payload small),
      )

module _ {S : Type 0} (d : Services S) (append : Error → Option Error → Error) where
  -- The worker of a kind takes up a message.
  abbrev take_up : ℕ → JobKind → Bytes → Exec (World S) (Unit {0})
  take_up c fetching body = handle_fetching d c body
  take_up c uploading body = handle_uploading d body

  abbrev work : ℕ → JobKind → Payload → Exec (World S) (Unit {0})
  work c fetching p = fetch d c p
  work c uploading p = upload d p

  -- What a worker of the kind leaves of the list, if it takes up a message for this job.
  abbrev left_behind : ℕ → Job → Payload → World S → List Job
  left_behind c job p w =
      if is_ok (work c job.kind p (with_job d job.kind p w)).0
      then remove_first job.video_id job.kind (w.jobs ++ job ∷ [])
      else w.jobs ++ job ∷ []

  take_up-jobs :
      (c : ℕ) (kind : JobKind) (body : Bytes) (p : Payload) (w : World S)
      → payload_json.unmarshal zero_payload body ≡ (p, none)
      → (take_up c kind body w).1.jobs ≡ left_behind c (new_job kind p) p w
  take_up-jobs c fetching body p w h = handle_fetching-jobs d c body p w h
  take_up-jobs c uploading body p w h = handle_uploading-jobs d body p w h

  -- What the end of a run hands back for a job of a kind, a video and a chat, the worker of its kind
  -- takes up in a later run as this job: it appends a job of that kind, that video and that chat,
  -- which stays in hand where its work fails or panics; where the work returns no error, the oldest
  -- job of the kind and the video is removed then. The chat's id has 64 bits.
  pub message_of-jobs :
      (c : ℕ) (kind : JobKind) (video : String) (chat : ℤ) (w : World S)
      → InInt64 chat
      → let p = record zero_payload { video_id = video; chat_id = chat } in
        let job : Job = record { kind = kind; payload = p } in
        (take_up c kind (message_of d append job).1 w).1.jobs ≡ left_behind c job p w
  message_of-jobs c kind video chat w small =
      let p = record zero_payload { video_id = video; chat_id = chat } in
      take_up-jobs c kind (encode_payload p) p w (payload_json-unmarshal p zero_payload small)

  -- Where two chats ask for one video, the end of the younger job takes away the older one: a worker
  -- whose work returns no error, in a list that starts with a job of its kind and video for any chat,
  -- leaves its own job, with its own chat, and that older one is gone.
  pub take_up-takes_oldest :
      (c : ℕ) (kind : JobKind) (body : Bytes) (p : Payload) (chat : ℤ) (rest : List Job)
      (w : World S)
      → payload_json.unmarshal zero_payload body ≡ (p, none)
      → let job : ℤ → Job = λ x. record {
        kind = kind;
        payload = record zero_payload { video_id = p.video_id; chat_id = x };
      } in
        w.jobs ≡ job chat ∷ rest
        → (work c kind p (with_job d kind p w)).0 ≡ ok tt
        → (take_up c kind body w).1.jobs ≡ rest ++ job p.chat_id ∷ []
  unfolding remove_first
  take_up-takes_oldest c kind body p chat rest w h jobs done =
      take_up-jobs c kind body p w h
      ∙ rw done (rw jobs (rw (eq_refl p.video_id, same_kind_refl kind) refl))

-- The latest call has one body.
pub latest_body :
    {h : Option (Call × Bool)} {queue : String} {a b : Bytes}
    → h ≡ some (publish queue a, true)
    → h ≡ some (publish queue b, true)
    → a ≡ b
latest_body e g = ground arith

module _ {S : Type 0} (d : Services S) (keeps : KeepsStores d) (lookups : OnlyMissing d) where
  upload_decoded-published :
      (q : Payload) (u : World S)
      → published (upload d q (with_job d uploading q u)).1.calls ≡ published u.calls
      → published (upload_decoded d (q, none) u).1.calls ≡ published u.calls
  unfolding upload_decoded add_job delete_job give_up report
  upload_decoded-published q u h = grind arith

  handle_uploading-published :
      (q : Payload) (u : World S)
      → InInt64 q.chat_id
      → published (upload d q (with_job d uploading q u)).1.calls ≡ published u.calls
      → published (handle_uploading d (encode_payload q) u).1.calls ≡ published u.calls
  unfolding handle_uploading
  handle_uploading-published q u small h =
      rw (payload_json-unmarshal q zero_payload small) (upload_decoded-published q u h)

  -- Over stores that keep what they are given, whose lookups of an object fail only for want of it, and
  -- where YouTube gives a video under the id that was asked for: from the message of a fetch that returned no error, the worker that takes it up never
  -- asks for a fetch again, whatever else fails in it, if the stores hold by then what they held after
  -- the fetch. The chat's id has 64 bits.
  pub fetch-handle_uploading :
      (c : ℕ) (p : Payload) (w : World S) (body : Bytes) (u : World S)
      → InInt64 p.chat_id
      → (fetch d c p w).0 ≡ ok tt
      → ((v : Video)
          → (d.youtube_client.get_video_context p.video_id w.outside).0 ≡ ok v
          → v.id ≡ p.video_id)
      → latest (fetch d c p w).1.calls ≡ some (publish queue_uploading body, true)
      → keeps.view u.outside ≡ keeps.view (fetch d c p w).1.outside
      → published (handle_uploading d body u).1.calls ≡ published u.calls
  fetch-handle_uploading c p w body u small h same last kept =
      let (q, video, chat, last', never) = fetch-upload d keeps lookups c p w h same in
      rw (latest_body last last') (
        handle_uploading-published q u (subst InInt64 (sym chat) small)
          (never (with_job d uploading q u) kept))
