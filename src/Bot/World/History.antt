-- ===== src/Bot/World/History.antt =====
-- What the history of calls shows.
use cribe.Prelude.{
  ℕ, String, Bool, true, false, Option, none, some, List, [], ◌∷◌, ◌≡◌, refl, arith, length, count,
  ◌==◌, ◌&&◌, ◌||◌, not,
}
use cribe.Bytes.{Bytes}
use cribe.Prelude.Decimal.{itoa}
use cribe.Bot.Services.{new_message, new_video_share, queue_fetching}
use cribe.Bot.World.{Call, publish, send, save_metadata, delete_object, create_object, get_object}

abbrev pub History : Type 0
History = List (Call × Bool)

-- A message that the broker took.
abbrev pub is_published : Call × Bool → Bool
is_published (publish queue body, done) = done
is_published (c, done) = false

-- How many messages the broker took.
abbrev pub published : History → ℕ
published = count is_published

-- How many messages the broker took for a queue.
abbrev pub is_published_to : String → Call × Bool → Bool
is_published_to key (publish queue body, done) = done && queue == key
is_published_to key (c, done) = false

abbrev pub published_to : String → History → ℕ
published_to key = count (is_published_to key)

abbrev pub is_created : Call × Bool → Bool
is_created (create_object key contents, done) = true
is_created (c, done) = false

-- How many times an object was to be created.
abbrev pub created : History → ℕ
created = count is_created

abbrev pub is_filed : Call × Bool → Bool
is_filed (save_metadata m, done) = not (m.file_id == "")
is_filed (c, done) = false

-- How many times metadata with a file's id were to be saved.
abbrev pub filed : History → ℕ
filed = count is_filed

-- What settles an upload: a video that is shared, a message that is handed back, or an object that
-- is deleted.
abbrev pub is_settled : Call × Bool → Bool
is_settled (publish queue body, done) = done
is_settled (send (new_video_share chat file caption), done) = done
is_settled (delete_object key, done) = done
is_settled (c, done) = false

abbrev pub settled : History → ℕ
settled = count is_settled

-- What ends the work on an upload: a video that is shared, a message that asks for a fetch, or an
-- object that is deleted.
abbrev pub is_concluded : Call × Bool → Bool
is_concluded (publish queue body, done) = done && queue == queue_fetching
is_concluded (send (new_video_share chat file caption), done) = done
is_concluded (delete_object key, done) = done
is_concluded (c, done) = false

abbrev pub concluded : History → ℕ
concluded = count is_concluded

-- The last call was a successful save of metadata with this video's id.
abbrev pub just_saved : String → History → Bool
just_saved key ((save_metadata m, done) ∷ h) = done && m.video_id == key
just_saved key h = false

-- Every deletion came right after such a save.
abbrev pub is_guarded : History → Bool
is_guarded [] = true
is_guarded ((delete_object key, done) ∷ h) = just_saved key h && is_guarded h
is_guarded (c ∷ h) = is_guarded h

-- The messages that the broker took, the latest first.
abbrev pub messages : History → List (String × Bytes)
messages [] = []
messages ((publish queue body, true) ∷ h) = (queue, body) ∷ messages h
messages (c ∷ h) = messages h

pub length-messages : (h : History) → length (messages h) ≡ published h
length-messages [] = refl
length-messages (c ∷ h) = ground (arith, length-messages h)

abbrev pub is_attempt : Call × Bool → Bool
is_attempt (publish queue body, done) = true
is_attempt (c, done) = false

-- How many messages were offered to the broker, taken or not.
abbrev pub attempts : History → ℕ
attempts = count is_attempt

abbrev pub is_told : Call × Bool → Bool
is_told (send (new_message chat text), done) = true
is_told (c, done) = false

-- How many texts to a chat were tried.
abbrev pub told : History → ℕ
told = count is_told

-- How many texts to this chat were tried.
abbrev pub is_told_to : String → Call × Bool → Bool
is_told_to key (send (new_message chat text), done) = itoa chat == key
is_told_to key (c, done) = false

abbrev pub told_to : String → History → ℕ
told_to key = count (is_told_to key)

-- How many texts that promise a download were tried.
abbrev pub starting : String
starting = "Starting to download the video"

abbrev pub is_promise : Call × Bool → Bool
is_promise (send (new_message chat text), done) = text == starting
is_promise (c, done) = false

abbrev pub promised : History → ℕ
promised = count is_promise

-- The storage has confirmed the object: it was found, or it was created.
abbrev pub is_confirmed : String → History → Bool
is_confirmed key [] = false
is_confirmed key ((get_object k, true) ∷ h) = k == key || is_confirmed key h
is_confirmed key ((create_object k contents, true) ∷ h) = k == key || is_confirmed key h
is_confirmed key (c ∷ h) = is_confirmed key h

abbrev pub latest : History → Option (Call × Bool)
latest [] = none
latest (c ∷ h) = some c
