-- ===== src/Tests/Codecs.antt =====
-- A codec of Telegram's messages for the tests.
use cribe.Prelude.{String, none, some}
use cribe.Exec.{ok}
use cribe.Bytes.{Codec}
use cribe.Bot.Services.{UploadedMessage}

-- A message without a video is the empty text.
abbrev pub message_codec : Codec UploadedMessage
message_codec = record {
  marshal = λ m. ok "";
  unmarshal = λ target b. (
    record { video = elim b [ String.[] ↦ none | String.◌∷◌ c s ↦ some (String.◌∷◌ c s) ] },
    none,
  );
}
