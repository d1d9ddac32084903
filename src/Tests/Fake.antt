-- ===== src/Tests/Fake.antt =====
-- Services that answer from a few settings and keep sessions in a list.
use cribe.Prelude.{
  String, true, Option, none, some, List, [], ◌∷◌, ◌≡◌, refl, ◌⊎◌, lookup, arith, eq_iff,
}
use cribe.Prelude.Decimal.{pos}
use cribe.Errors.{Error, sentinel, wrap, record_not_found, object_not_found, session_not_found}
use cribe.Exec.{Result, ok, err, pure}
use cribe.Bytes.{Bytes}
use cribe.Db.{Metadata}
use cribe.Session.{Backend}
use cribe.Session.RoundTrip.{IsKeeping}
use cribe.Bot.Services.{Payload, Thumbnail, Format, Video, Services}
use cribe.Bot.World.{World}
use cribe.Bot.Messages.Sessions.{LeavesSessions}
use cribe.Tests.Codecs.{message_codec}

abbrev pub Outside : Type 0
Outside = List (String × Bytes)

abbrev pub found : Option Bytes → Result Bytes
found none = err (sentinel session_not_found)
found (some v) = ok v

abbrev pub sessions : Backend Outside
sessions = record {
  get = λ k s. (found (lookup k s), s);
  set = λ k v s. (ok tt, (k, v) ∷ s);
  delete = λ k. pure tt;
}

pub get_ok :
    (k : String) (v : Bytes) (s : Outside) → found (lookup k s) ≡ ok v → lookup k s ≡ some v
get_ok k v s h = ground arith

pub get_absent :
    (k : String) (e : Error) (s : Outside) → found (lookup k s) ≡ err e → lookup k s ≡ none
get_absent k e s h = ground arith

pub set_any :
    (k j : String) (v : Bytes) (s : Outside)
    → (lookup j ((k, v) ∷ s) ≡ lookup j s) ⊎ ((k ≡ j) × (lookup j ((k, v) ∷ s) ≡ some v))
set_any k j v s = ground (arith, eq_iff k j)

abbrev pub sessions_keeping : IsKeeping sessions
sessions_keeping = record {
  content = λ s k. lookup k s;
  get-ok = λ k v s h. get_ok k v s h;
  get-absent = λ k e s h n. get_absent k e s h;
  get-content = λ k j s. refl;
  set-any = set_any;
  set-ok = λ k j v s h. refl;
}

abbrev pub format : Format
format = record {
  mime_type = "video/mp4";
  quality = "hd720";
  audio_channels = 2;
  width = pos 1280;
  height = pos 720;
}

abbrev pub small : Thumbnail
small = record { url = "http://i/small.jpg?x=1"; width = 120; height = 90 }

abbrev pub large : Thumbnail
large = record { url = "http://i/large.jpg?x=2"; width = 1280; height = 720 }

abbrev pub video : Video
video = record {
  id = "v1";
  title = "A title";
  formats = format ∷ [];
  thumbnails = small ∷ large ∷ [];
  duration = 5000000000;
}

abbrev metadata_answer : Option Metadata → Result Metadata
metadata_answer none = err (wrap "fetch metadata" (sentinel record_not_found))
metadata_answer (some m) = ok m

abbrev object_answer : Option Bytes → Result Bytes
object_answer none = err (sentinel object_not_found)
object_answer (some b) = ok b

abbrev head : List Format → Option Format
head [] = none
head (f ∷ fs) = some f

-- `known` is what the database holds, `object` what the storage holds, and `answer` the bytes that
-- an upload is answered with.
abbrev pub services : Option Metadata → Option Bytes → Bytes → Services Outside
services known object answer = record {
  metadata_db = record {
    fetch_by_metadata = λ v m q s. (metadata_answer known, s);
    save = λ m. pure tt;
  };
  youtube_client = record {
    get_video_context = λ url. pure video;
    get_stream_context = λ v f. pure 1;
    read_all = λ h. pure "bytes";
    with_audio_channels = λ fs. fs;
    find_by_quality = λ fs q. head fs;
  };
  storage = record {
    create_object = λ b k v. pure tt;
    delete_object = λ b k. pure tt;
    get_object = λ b k s. (object_answer object, s);
  };
  broker = record {
    chan = pure 7;
    publish = λ c q b. pure tt;
    queue_declare = λ c q. pure tt;
    consume = λ c q. pure [];
    close = λ c s. (none, s);
  };
  sender = record {
    send = λ c. pure tt;
    upload_file_with_context = λ e p f n b.
        pure (record { ok = true; result = answer; error_code = pos 0; description = "" });
  };
  session_backend = sessions;
  ctx_err = λ s. (none, s);
  now = λ s. (0, s);
  message_codec = message_codec;
  bucket = "b";
}

abbrev pub request : Payload
request = record { mime = ""; quality = ""; video_id = "v1"; chat_id = pos 42 }

abbrev pub stored : Metadata
stored = record {
  video_id = "v1";
  quality = "hd720";
  mime = "video/mp4";
  file_id = "";
  params = record {
    title = "A title";
    width = pos 1280;
    height = pos 720;
    duration = pos 5;
    thumb = "t";
  };
  created_at = 0;
  updated_at = 0;
}

abbrev pub fresh_world : World Outside
fresh_world = record { outside = []; jobs = []; calls = [] }

abbrev pub leaves :
    (known : Option Metadata) (object : Option Bytes) (answer : Bytes)
    → LeavesSessions (services known object answer) sessions_keeping
leaves known object answer = record {
  get_video = λ url s k. refl;
  chan = λ s k. refl;
  publish = λ c q b s k. refl;
  close = λ c s k. refl;
  send = λ c s k. refl;
}
