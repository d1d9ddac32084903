-- ===== src/Tests/Deliveries.antt =====
-- A video on its way through stores that keep what they are given.
use cribe.Bot.Consumers.{give_up}
use cribe.Bot.Jobs.{delete_job, add_job}
use cribe.Json.Quoting.{escape, quote}
use cribe.Json.Scanner.{parse}
use cribe.Json.Fields.{unmarshal}
use cribe.Prelude.{◌+◌, String, true, none, some, [], ◌∷◌, ◌≡◌, ◌≢◌, refl, arith, eq_iff}
use cribe.Prelude.Decimal.{pos, itoa}
use cribe.Errors.{errors_is}
use cribe.Exec.{ok}
use cribe.Bytes.{Bytes}
use cribe.Bot.Services.{Video, zero_payload, queue_fetching, queue_uploading}
use cribe.Bot.World.{World, publish, uploading}
use cribe.Bot.World.History.{published, latest, messages}
use cribe.Bot.Thumbnails.{choose_thumb, sort_slice, sift_all, sift, less}
use cribe.Bot.Fetch.{fetch, fetch_new, fetch_known, fetch_again, store_if_missing, record_metadata}
use cribe.Bot.Upload.{send_file, upload_file, upload, upload_with, upload_known}
use cribe.Bot.Upload.Delivery.{videos_to}
use cribe.Bot.Jobs.Counts.{in_hand}
use cribe.Bot.Pipeline.Resuming.{fetch-handle_uploading}
use cribe.Bot.Pipeline.Journey.{FindsAgain, message-delivered}
use cribe.Bot.Messages.{
  Message, handle_message, converse, parse_video, parsing_action, default_action, provide_fsm, tell,
}
use cribe.Bot.Messages.Sessions.{AllDefault}
use cribe.Fsm.{send_event, round, get_next_state}
use cribe.Session.{new_session, load, flush}
use cribe.Session.Encoding.{state_json}
use cribe.Bot.Consumers.{
  give_up, report, fetch_decoded, handle_fetching, upload_decoded, handle_uploading,
}
use cribe.Bot.Encoding.{payload_json, encode_payload}
use cribe.Tests.Fake.{request, format}
use cribe.Tests.Stocks.{
  Shelf, stocks, stocks_lookups, stocks_KeepsStores, stocks_IsKeeping, stocks_LeavesSessions,
  empty_stocks,
}

fetch_test : (fetch stocks 7 request empty_stocks).0 ≡ ok tt
unfolding fetch fetch_new fetch_known fetch_again store_if_missing record_metadata choose_thumb
    sort_slice sift_all sift less errors_is payload_json
fetch_test = refl

same_id :
    (v : Video)
    → (stocks.youtube_client.get_video_context request.video_id empty_stocks.outside).0 ≡ ok v
    → v.id ≡ request.video_id
same_id v h = ground arith

-- The message of the fetch, and the world of the worker that takes it up.
abbrev handed : Bytes
unfolding encode_payload
handed = encode_payload (record request { mime = format.mime_type; quality = format.quality })

abbrev after_fetch : World Shelf
unfolding fetch
after_fetch = (fetch stocks 7 request empty_stocks).1

latest_test : latest after_fetch.calls ≡ some (publish queue_uploading handed, true)
unfolding fetch fetch_new fetch_known fetch_again store_if_missing record_metadata choose_thumb
    sort_slice sift_all sift less errors_is payload_json
latest_test = refl

fetch-handle_uploading_example :
    published (handle_uploading stocks handed after_fetch).1.calls ≡ published after_fetch.calls
unfolding fetch after_fetch
fetch-handle_uploading_example =
    fetch-handle_uploading stocks stocks_KeepsStores stocks_lookups 7 request empty_stocks handed
      after_fetch (omega arith) fetch_test same_id latest_test refl

abbrev link : Message
link = record { from_id = pos 42; chat_id = pos 42; text = "https://youtu.be/v1"; command = none }

empty_stocks-AllDefault : AllDefault stocks stocks_IsKeeping empty_stocks.outside
empty_stocks-AllDefault k v h = absurd (ground arith)

found_again : FindsAgain stocks
found_again url x s h y t e = ground arith

-- The request, and the worlds of the workers that take it up.
abbrev asked_for : Bytes
unfolding encode_payload
asked_for = encode_payload (record zero_payload { video_id = "v1"; chat_id = pos 42 })

abbrev after_message : World Shelf
unfolding handle_message
after_message = (handle_message stocks link empty_stocks).1

abbrev after_fetching : World Shelf
unfolding handle_fetching
after_fetching = (handle_fetching stocks 7 asked_for after_message).1

asked_test : messages after_message.calls ≡ (queue_fetching, asked_for) ∷ []
unfolding handle_message load new_session errors_is converse parse_video send_event round
    provide_fsm parsing_action payload_json default_action
asked_test = refl

taken_test :
    messages after_fetching.calls ≡ (queue_uploading, handed) ∷ (queue_fetching, asked_for) ∷ []
unfolding after_fetching after_message handed asked_for handle_message load new_session flush
    state_json errors_is converse parse_video send_event round provide_fsm get_next_state
    parsing_action tell payload_json default_action handle_fetching fetch_decoded give_up report
    add_job delete_job unmarshal parse quote escape itoa fetch fetch_new fetch_known fetch_again
    store_if_missing record_metadata choose_thumb sort_slice sift_all sift less encode_payload
taken_test = refl

idle_test :
    (id : String)
    → in_hand id uploading (handle_uploading stocks handed after_fetching).1.jobs
      ≡ in_hand id uploading after_fetching.jobs
unfolding after_fetching handle_uploading payload_json upload_decoded errors_is unmarshal fetch_new
    parse store_if_missing quote record_metadata escape itoa add_job upload upload_with upload_known
    upload_file send_file delete_job fetch_decoded give_up fetch fetch_known after_message load
    new_session converse parse_video send_event round provide_fsm parsing_action default_action
    flush state_json
idle_test id = refl

elsewhere : itoa (pos 42) ≢ "7"
unfolding itoa
elsewhere e = ground (arith, (eq_iff "42" "7").1 e)

message-delivered_example :
    let u' = (handle_uploading stocks handed after_fetching).1 in
    (videos_to "42" u'.calls ≡ videos_to "42" after_fetching.calls + 1)
    × (videos_to "7" u'.calls ≡ videos_to "7" after_fetching.calls)
unfolding itoa handle_message after_message handle_fetching after_fetching load new_session
    errors_is converse parse_video send_event round provide_fsm parsing_action payload_json
    default_action
message-delivered_example =
    message-delivered stocks stocks_IsKeeping stocks_LeavesSessions stocks_KeepsStores
      stocks_lookups link empty_stocks after_message after_fetching 7 asked_for handed "7"
      (omega arith) empty_stocks-AllDefault found_again asked_test taken_test refl idle_test
      elsewhere
