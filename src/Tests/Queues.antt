-- ===== src/Tests/Queues.antt =====
-- Workers with all the messages of their queues.
use cribe.Json.Quoting.{escape, quote}
use cribe.Json.Scanner.{parse}
use cribe.Json.Fields.{unmarshal}
use cribe.Prelude.{◌+◌, ◌≤◌, [], ◌∷◌, ◌≡◌, refl}
use cribe.Prelude.Decimal.{itoa}
use cribe.Errors.{errors_is}
use cribe.Exec.{ok, pure}
use cribe.Bot.Services.{Services, queue_uploading}
use cribe.Bot.World.History.{told, published_to, concluded}
use cribe.Bot.Fetch.{fetch, fetch_new, fetch_known, fetch_again, store_if_missing, record_metadata}
use cribe.Bot.Upload.{upload, upload_with, upload_known, upload_file, send_file}
use cribe.Bot.Jobs.{add_job, delete_job}
use cribe.Bot.Thumbnails.{choose_thumb, sort_slice, sift_all, sift, less}
use cribe.Bot.Upload.Delivery.{videos_to}
use cribe.Bot.Encoding.{payload_json, encode_payload}
use cribe.Bot.Consumers.{
  each, handle_fetching, handle_uploading, fetch_decoded, upload_decoded, report, give_up,
  consuming_video_fetching, consuming_video_uploading,
}
use cribe.Bot.Consumers.Answers.{
  cancelled_fetches, cancelled_uploads, consuming_video_fetching-answered,
  consuming_video_uploading-answered,
}
use cribe.Bot.Consumers.Videos.{consuming_video_uploading-videos}
use cribe.Tests.Fake.{Outside, request}
use cribe.Tests.Pipeline.{new_video, stored_video, later, waiting}

-- The queues hold two requests and a message that is no JSON.
abbrev queues : Services Outside → Services Outside
queues d = record d {
  broker = record d.broker {
    consume = λ c q. pure (encode_payload request ∷ "{" ∷ encode_payload later ∷ []);
  };
}

fetching_test : (consuming_video_fetching (queues new_video) waiting).0 ≡ ok tt
unfolding consuming_video_fetching each handle_fetching fetch_decoded report give_up add_job
    delete_job fetch fetch_new fetch_known fetch_again store_if_missing record_metadata choose_thumb
    sort_slice sift_all sift less errors_is payload_json unmarshal parse quote escape itoa
fetching_test = refl

uploading_test : (consuming_video_uploading (queues stored_video) waiting).0 ≡ ok tt
unfolding consuming_video_uploading each handle_uploading upload_decoded report give_up add_job
    delete_job upload upload_with upload_known upload_file send_file errors_is payload_json
    unmarshal parse quote escape itoa
uploading_test = refl

consuming_video_fetching-answered_example :
    let w' = (consuming_video_fetching (queues new_video) waiting).1 in
    published_to queue_uploading w'.calls
      + told w'.calls
      + cancelled_fetches (queues new_video) waiting
    ≡ 0 + 0 + 3
consuming_video_fetching-answered_example =
    consuming_video_fetching-answered (queues new_video) waiting fetching_test

consuming_video_uploading-answered_example :
    let w' = (consuming_video_uploading (queues stored_video) waiting).1 in
    concluded w'.calls + told w'.calls + cancelled_uploads (queues stored_video) waiting ≡ 0 + 0 + 3
consuming_video_uploading-answered_example =
    consuming_video_uploading-answered (queues stored_video) waiting uploading_test

consuming_video_uploading-videos_example :
    videos_to "42" (consuming_video_uploading (queues stored_video) waiting).1.calls ≤ 0 + 1
unfolding payload_json unmarshal parse quote escape itoa
consuming_video_uploading-videos_example =
    consuming_video_uploading-videos (queues stored_video) "42" waiting
