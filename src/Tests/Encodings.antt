-- ===== src/Tests/Encodings.antt =====
-- Messages as JSON at concrete inputs.
use cribe.Prelude.{[], ◌∷◌, ◌++◌, none, true, some, ◌≡◌, refl, arith, if◌then◌else◌}
use cribe.Prelude.Decimal.{pos, negsuc}
use cribe.Exec.{ok, is_ok}
use cribe.Json.Scanner.{parse, run, complete}
use cribe.Json.Strings.{read_char}
use cribe.Json.Values.{
  null, boolean, number, text, array, object, no_items, item, no_members, member, add_item,
  add_member,
}
use cribe.Bot.Services.{Payload, zero_payload}
use cribe.Bot.World.{Job, uploading}
use cribe.Bot.Encoding.{encode_payload, payload_json}
use cribe.Bot.Encoding.RoundTrip.{payload_json-unmarshal}
use cribe.Bot.Jobs.{new_job, remove_first}
use cribe.Bot.Upload
use cribe.Bot.Upload.{upload}
use cribe.Bot.Consumers.{handle_fetching, handle_uploading}
use cribe.Bot.Consumers.Bookkeeping.{with_job}
use cribe.Bot.Consumers.Unreadable.{apologised, handle-unreadable}
use cribe.Bot.Finalization.Republishing.{message_of}
use cribe.Bot.Pipeline.Resuming.{message_of-jobs, take_up-takes_oldest}
use cribe.Tests.Pipeline.{stored_video, waiting, later}
use cribe.Tests.Workers.{join}

parse_test :
    parse
      " { \"a\" : [ 1 , -2.5e+3 , \"\\u00e9\\ud83d\\ude00\" ] , \"b\":{},\"c\":[ ],\"d\":null,\"e\":true}"
    ≡ some (
        object (
          member "a"
            (array (item (number "1") (item (number "-2.5e+3") (item (text "é😀") no_items))))
            (member "b" (object no_members) (
              member "c"
                (array no_items)
                (member "d" null (member "e" (boolean true) no_members))))))
unfolding parse run complete add_item add_member read_char
parse_test = refl

refused_test : parse "{\"a\":01}" ≡ none
unfolding parse run complete add_item add_member read_char
refused_test = refl

abbrev odd : Payload
odd = record { mime = "a\"\\<é😀"; quality = "\n"; video_id = ""; chat_id = negsuc 999 }

payload_json-unmarshal_example :
    payload_json.unmarshal zero_payload (encode_payload odd) ≡ (odd, none)
payload_json-unmarshal_example = payload_json-unmarshal odd zero_payload (omega arith)

broken : parse "{\"chat_id\":42" ≡ none
unfolding parse run complete read_char
broken = refl

handle-unreadable_example :
    ((handle_fetching stored_video 7 "{\"chat_id\":42" waiting).1
      ≡ apologised stored_video (pos 0) waiting)
    × ((handle_uploading stored_video "{\"chat_id\":42" waiting).1
        ≡ apologised stored_video (pos 0) waiting)
handle-unreadable_example = handle-unreadable stored_video 7 "{\"chat_id\":42" waiting broken

abbrev left : Job
left = new_job uploading odd

message_of-jobs_example :
    let p = record zero_payload { video_id = "v2"; chat_id = pos 99 } in
    let job : Job = record { kind = uploading; payload = p } in
    (handle_uploading stored_video (message_of stored_video join job).1 waiting).1.jobs ≡ (
      if is_ok (upload stored_video p (with_job stored_video uploading p waiting)).0
      then remove_first "v2" uploading (waiting.jobs ++ job ∷ [])
      else waiting.jobs ++ job ∷ [])
message_of-jobs_example =
    message_of-jobs stored_video join 7 uploading "v2" (pos 99) waiting (omega arith)

later_test : (upload stored_video later (with_job stored_video uploading later waiting)).0 ≡ ok tt
unfolding upload payload_json Upload.upload_with Upload.upload_known Upload.upload_file
    Upload.send_file
later_test = refl

-- The job in hand is of chat 42; the end of chat 99's takes it away.
take_up-takes_oldest_example :
    (handle_uploading stored_video (encode_payload later) waiting).1.jobs
    ≡ record {
      kind = uploading;
      payload = record zero_payload { video_id = "v1"; chat_id = pos 99 };
    }
      ∷ []
take_up-takes_oldest_example =
    take_up-takes_oldest stored_video join 7 uploading (encode_payload later) later (pos 42) []
      waiting (payload_json-unmarshal later zero_payload (omega arith)) refl later_test
