-- ===== src/Tests/Pipeline.antt =====
-- Fetches and uploads at concrete inputs.
use cribe.Prelude.{◌+◌, String, true, none, some, [], ◌∷◌, ◌≡◌, refl, arith, if◌then◌else◌}
use cribe.Prelude.Decimal.{pos}
use cribe.Errors.{Error, message, object_not_found, errors_is}
use cribe.Exec.{◌>>=◌, ok, err, pure, is_ok}
use cribe.Bot.Services.{Payload, Format, Video, Services, ApiResponse, queue_uploading, Thumbnail}
use cribe.Bot.World.{check_done, get, World, uploading, publish, delete_object, save_metadata}
use cribe.Bot.World.History.{History, settled, is_guarded, created, is_confirmed, latest}
use cribe.Bot.Thumbnails
use cribe.Bot.Fetch
use cribe.Bot.Fetch.Storing.{fetch_new-dropped, fetch_new-confirmed, fetch-hands_over}
use cribe.Bot.Upload
use cribe.Bot.Upload.Effects.{upload-settled, upload-guarded}
use cribe.Bot.Upload.FileId.{sent, upload_file-remembers}
use cribe.Bot.Jobs.{new_job}
use cribe.Bot.Encoding.{payload_json, encode_payload}
use cribe.Tests.Fake.{Outside, services, request, stored, fresh_world, video, format}

-- A video that is new, and one that is stored and not yet uploaded.
abbrev pub new_video : Services Outside
new_video = services none none ""

abbrev pub stored_video : Services Outside
stored_video = services (some stored) (some "bytes") "file-1"

abbrev pub waiting : World Outside
waiting = record fresh_world { jobs = new_job uploading request ∷ [] }

abbrev pub later : Payload
later = record request { chat_id = pos 99 }

-- A storage whose lookups fail, an answer without a video, and a broker that delivers messages.
abbrev pub broken_storage : Services Outside
broken_storage = record new_video {
  storage = record {
    create_object = λ b k v. pure tt;
    delete_object = λ b k. pure tt;
    get_object = λ b k s. (err (message "disk failure"), s);
  };
}

abbrev pub no_video : Services Outside
no_video = services (some stored) (some "bytes") ""

abbrev pub busy : Services Outside
busy = record new_video {
  broker = record {
    chan = pure 7;
    publish = λ c q b. pure tt;
    queue_declare = λ c q. pure tt;
    consume = λ c q. pure (encode_payload request ∷ encode_payload later ∷ []);
    close = λ c s. (none, s);
  };
}

only_missing :
    (key : String) (s : Outside) (e : Error)
    → (new_video.storage.get_object "b" key s).0 ≡ err e
    → errors_is e object_not_found ≡ true
unfolding errors_is
only_missing key s e h = ground arith

abbrev pub medium : Thumbnail
medium = record { url = "http://i/medium.jpg?x=3"; width = 320; height = 180 }

fetch_test : (Fetch.fetch new_video 7 request fresh_world).0 ≡ ok tt
unfolding Fetch.fetch Fetch.fetch_new Fetch.fetch_known Fetch.fetch_again Fetch.store_if_missing
    Fetch.record_metadata Thumbnails.choose_thumb Thumbnails.sort_slice Thumbnails.sift_all
    Thumbnails.sift Thumbnails.less errors_is payload_json
fetch_test = refl

abbrev full : Payload
full = record request { mime = format.mime_type; quality = format.quality }

fetch-hands_over_example :
    (v : Video) × (f : Format) × ((new_video.youtube_client.get_video_context "v1" []).0 ≡ ok v)
    × (Fetch.find_format new_video 7 v ≡ some f)
    × (latest (Fetch.fetch new_video 7 request fresh_world).1.calls
        ≡ some (
          publish queue_uploading
              (encode_payload (record request { mime = f.mime_type; quality = f.quality })),
          true,
        ))
unfolding Fetch.fetch Fetch.fetch_new Fetch.fetch_known Fetch.fetch_again Fetch.store_if_missing
    Fetch.record_metadata Thumbnails.choose_thumb Thumbnails.sort_slice Thumbnails.sift_all
    Thumbnails.sift Thumbnails.less errors_is payload_json
fetch-hands_over_example = fetch-hands_over new_video 7 request fresh_world refl

fetch_new-confirmed_example :
    is_confirmed "v1"
      (Fetch.fetch_new new_video 7 full video format (encode_payload full) fresh_world).1.calls
    ≡ true
unfolding Fetch.fetch Fetch.fetch_new Fetch.fetch_known Fetch.fetch_again Fetch.store_if_missing
    Fetch.record_metadata Thumbnails.choose_thumb Thumbnails.sort_slice Thumbnails.sift_all
    Thumbnails.sift Thumbnails.less errors_is
fetch_new-confirmed_example =
    fetch_new-confirmed new_video 7 only_missing full video format (encode_payload full) fresh_world
      refl

fetch_new-dropped_example :
    let d = broken_storage in
    let w3 = (get d "v1" (check_done d (Fetch.download d 7 video format fresh_world).1).1).1 in
    (Fetch.fetch_new d 7 full video format (encode_payload full) fresh_world
      ≡ (Fetch.record_metadata d 7 full video format >>= λ _.
            Fetch.hand_over d 7 (encode_payload full))
          w3)
    × (created (Fetch.fetch_new d 7 full video format (encode_payload full) fresh_world).1.calls
        ≡ 0)
unfolding errors_is
fetch_new-dropped_example =
    fetch_new-dropped broken_storage 7 full video format (encode_payload full) "bytes" fresh_world
      (message "disk failure") refl refl refl refl

fetch_test_dropped :
    (Fetch.fetch_new broken_storage 7 full video format (encode_payload full) fresh_world).0 ≡ ok tt
unfolding Fetch.fetch Fetch.fetch_new Fetch.fetch_known Fetch.fetch_again Fetch.store_if_missing
    Fetch.record_metadata Thumbnails.choose_thumb Thumbnails.sort_slice Thumbnails.sift_all
    Thumbnails.sift Thumbnails.less errors_is
fetch_test_dropped = refl

-- An upload of a stored video, the fixed behaviours of its steps, and one that panics.
upload_test : (Upload.upload stored_video request fresh_world).0 ≡ ok tt
unfolding Upload.upload Upload.upload_with Upload.upload_known Upload.upload_file Upload.send_file
    errors_is payload_json
upload_test = refl

upload-settled_example :
    let (r, w') = Upload.upload stored_video request fresh_world in
    settled w'.calls ≡ settled fresh_world.calls + (if is_ok r then 1 else 0)
upload-settled_example = upload-settled stored_video request fresh_world

upload-guarded_example : is_guarded (Upload.upload stored_video request fresh_world).1.calls ≡ true
upload-guarded_example = upload-guarded stored_video request fresh_world refl

upload_file-remembers_example :
    (file_id : String) × (resp : ApiResponse) × (rest : History) × ((sent stored_video request
        stored "bytes" fresh_world).0
      ≡ ok resp)
    × (resp.ok ≡ true)
    × (stored_video.message_codec.unmarshal (record { video = none }) resp.result
        ≡ (record { video = some file_id }, none))
    × ((Upload.upload_file stored_video request stored "bytes" fresh_world).1.calls
        ≡ (delete_object "v1", true)
          ∷ (save_metadata (record stored { file_id = file_id }), true)
          ∷ rest)
unfolding Upload.upload Upload.upload_with Upload.upload_known Upload.upload_file Upload.send_file
    errors_is
upload_file-remembers_example =
    upload_file-remembers stored_video request stored "bytes" fresh_world refl
