-- ===== src/Tests/Stocks.antt =====
-- A database and a storage that keep what they are given, and a video on its way through them.
use cribe.Prelude.{
  lookup, String, true, Option, none, some, List, [], ◌∷◌, ◌≡◌, refl, arith, ◌==◌, eq_refl, eq_iff,
  ◌≢◌, inr, if◌then◌else◌,
}
use cribe.Prelude.Decimal.{pos}
use cribe.Errors.{Error, sentinel, record_not_found, object_not_found, errors_is}
use cribe.Exec.{Result, ok, err, pure}
use cribe.Bytes.{Bytes}
use cribe.Db.{Metadata}
use cribe.Storage.Keeping.{IsKeepingBlob}
use cribe.Db.Table.{IsTable, put}
use cribe.Bot.Services.{Format, Services}
use cribe.Bot.World.{World}
use cribe.Bot.Pipeline.{View, KeepsStores, OnlyMissing}
use cribe.Tests.Codecs.{message_codec}
use cribe.Tests.Fake.{Outside, video, found, get_ok, get_absent, set_any}
use cribe.Session.RoundTrip.{IsKeeping}
use cribe.Bot.Messages.Sessions.{LeavesSessions}

-- The state outside is what the stores hold, and the sessions.
pub record Shelf : Type 0 where
  pub stock : View
  pub sessions : Outside

abbrev row_answer : Option Metadata → Result Metadata
row_answer none = err (sentinel record_not_found)
row_answer (some m) = ok m

abbrev object_answer : Option Bytes → Result Bytes
object_answer none = err (sentinel object_not_found)
object_answer (some b) = ok b

abbrev stocked : View → Shelf → Shelf
stocked v s = record s { stock = v }

abbrev saved : Metadata → View → View
saved x s = record s { row = put x s.row }

abbrev created : String → Bytes → View → View
created k b s = record s { object = λ j. if j == k then some b else s.object j }

abbrev removed : String → View → View
removed k s = record s { object = λ j. if j == k then none else s.object j }

abbrev head : List Format → Option Format
head [] = none
head (f ∷ fs) = some f

abbrev pub stocks : Services Shelf
stocks = record {
  metadata_db = record {
    fetch_by_metadata = λ v m q s. (row_answer (s.stock.row v m q), s);
    save = λ x s. (ok tt, stocked (saved x s.stock) s);
  };
  youtube_client = record {
    get_video_context = λ url. pure video;
    get_stream_context = λ v f. pure 1;
    read_all = λ h. pure "bytes";
    with_audio_channels = λ fs. fs;
    find_by_quality = λ fs q. head fs;
  };
  storage = record {
    create_object = λ b k v s. (ok tt, stocked (created k v s.stock) s);
    delete_object = λ b k s. (ok tt, stocked (removed k s.stock) s);
    get_object = λ b k s. (object_answer (s.stock.object k), s);
  };
  broker = record {
    chan = pure 7;
    publish = λ c q b. pure tt;
    queue_declare = λ c q. pure tt;
    consume = λ c q. pure [];
    close = λ c s. (none, s);
  };
  sender = record {
    send = λ c. pure tt;
    upload_file_with_context = λ e p f n b.
        pure (record { ok = true; result = "file-1"; error_code = pos 0; description = "" });
  };
  session_backend = record {
    get = λ k s. (found (lookup k s.sessions), s);
    set = λ k v s. (ok tt, record s { sessions = (k, v) ∷ s.sessions });
    delete = λ k. pure tt;
  };
  ctx_err = λ s. (none, s);
  now = λ s. (0, s);
  message_codec = message_codec;
  bucket = "b";
}

pub row-ok : (o : Option Metadata) (x : Metadata) → row_answer o ≡ ok x → o ≡ some x
row-ok o x h = ground arith

pub row-absent : (o : Option Metadata) (e : Error) → row_answer o ≡ err e → o ≡ none
row-absent o e h = ground arith

pub object-ok : (o : Option Bytes) (b : Bytes) → object_answer o ≡ ok b → o ≡ some b
object-ok o b h = ground arith

pub object-absent : (o : Option Bytes) (e : Error) → object_answer o ≡ err e → o ≡ none
object-absent o e h = ground arith

pub object-missing :
    (o : Option Bytes) (e : Error) → object_answer o ≡ err e → errors_is e object_not_found ≡ true
unfolding errors_is
object-missing o e h = ground arith

pub created-object : (k : String) (b : Bytes) (s : View) → (created k b s).object k ≡ some b
created-object k b s = ground (arith, eq_refl k)

pub created-other :
    (k j : String) (b : Bytes) (s : View) → k ≢ j → (created k b s).object j ≡ s.object j
created-other k j b s n = ground (arith, eq_iff j k)

pub removed-object : (k : String) (s : View) → (removed k s).object k ≡ none
removed-object k s = ground (arith, eq_refl k)

pub removed-other : (k j : String) (s : View) → k ≢ j → (removed k s).object j ≡ s.object j
removed-other k j s n = ground (arith, eq_iff j k)

abbrev stocks_IsTable : IsTable stocks.metadata_db
stocks_IsTable = record {
  rows = λ s. s.stock.row;
  fetch-ok = λ v m q x s h. row-ok (s.stock.row v m q) x h;
  fetch-absent = λ v m q e s h n. row-absent (s.stock.row v m q) e h;
  fetch-rows = λ v m q s. refl;
  save-ok = λ x s h. refl;
  save-rows = λ x s. inr refl;
}

abbrev stocks_IsKeepingBlob : IsKeepingBlob stocks.storage
stocks_IsKeepingBlob = record {
  Place = String;
  place = λ b k. k;
  content = λ s k. s.stock.object k;
  get-ok = λ b k v s h. object-ok (s.stock.object k) v h;
  get-absent = λ b k e s h n. object-absent (s.stock.object k) e h;
  create-ok = λ b k v s h. created-object k v s.stock;
  create-other = λ b k v s p n. created-other k p v s.stock n;
  delete-ok = λ b k s h. removed-object k s.stock;
  delete-other = λ b k s p n. removed-other k p s.stock n;
}

abbrev pub stocks_KeepsStores : KeepsStores stocks
stocks_KeepsStores = record {
  view = λ s. s.stock;
  table = stocks_IsTable;
  blob = stocks_IsKeepingBlob;
  view-row = λ s. refl;
  view-object = λ s k. refl;
  fetch-view = λ v m q s. refl;
  save-object = λ x s. refl;
  get-view = λ k s. refl;
  create-row = λ k b s. refl;
  video-view = λ url s. refl;
  stream-view = λ v f s. refl;
  read-view = λ h s. refl;
  publish-view = λ c q b s. refl;
  chan-view = λ s. refl;
  declare-view = λ c q s. refl;
  done-view = λ s. refl;
  now-view = λ s. refl;
}

pub stocks_lookups : OnlyMissing stocks
stocks_lookups k e s h = object-missing (s.stock.object k) e h

abbrev pub stocks_IsKeeping : IsKeeping stocks.session_backend
stocks_IsKeeping = record {
  content = λ s k. lookup k s.sessions;
  get-ok = λ k v s h. get_ok k v s.sessions h;
  get-absent = λ k e s h n. get_absent k e s.sessions h;
  get-content = λ k j s. refl;
  set-any = λ k j v s. set_any k j v s.sessions;
  set-ok = λ k j v s h. refl;
}

abbrev pub stocks_LeavesSessions : LeavesSessions stocks stocks_IsKeeping
stocks_LeavesSessions = record {
  get_video = λ url s k. refl;
  chan = λ s k. refl;
  publish = λ c q b s k. refl;
  close = λ c s k. refl;
  send = λ c s k. refl;
}

abbrev pub empty_stocks : World Shelf
empty_stocks = record {
  outside = record { stock = record { row = λ v m q. none; object = λ k. none }; sessions = [] };
  jobs = [];
  calls = [];
}
