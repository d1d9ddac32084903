-- ===== src/Bot/Upload/FileId.antt =====
-- The file's id that an upload remembers.
use cribe.Prelude.{String, true, none, some, ◌∷◌, ◌≡◌, arith, inl, inr}
use cribe.Exec.{Result, ok, Result-cases}
use cribe.Bytes.{Bytes}
use cribe.Db.{Metadata}
use cribe.Bot.Services.{Payload, Services, ApiResponse}
use cribe.Bot.World.{World, save_metadata, delete_object}
use cribe.Bot.World.History.{History}
use cribe.Bot.Upload.{send_file, upload_file, upload_params}

module _ {S : Type 0} (d : Services S) (p : Payload) (m : Metadata) (file : Bytes)
    (w : World S) where
  -- The outside after the file was sent.
  abbrev pub sent : Result ApiResponse × S
  sent =
      d.sender.upload_file_with_context "sendVideo" (upload_params p m) "video" m.params.title file
        w.outside

  -- The file's id comes from an answer that is ok and decodes to a message with a video.
  send_file-answer :
      (file_id : String)
      → (send_file d p m file w).0 ≡ ok file_id
      → (resp : ApiResponse) × (sent.0 ≡ ok resp)
        × (resp.ok ≡ true)
        × (d.message_codec.unmarshal (record { video = none }) resp.result
            ≡ (record { video = some file_id }, none))
  unfolding send_file
  send_file-answer file_id h = elim (Result-cases sent.0) [
    | inl (resp, e) ↦ (resp, e, ground arith, ground arith)
    | inr (inl (x, e)) ↦ cc (rw e at h)
    | inr (inr (x, e)) ↦ cc (rw e at h)
  ]

  -- An upload of a file that returns no error has saved the fetched metadata with the id of the video
  -- of the answer, nothing else changed, and has deleted the object after that.
  pub upload_file-remembers :
      (upload_file d p m file w).0 ≡ ok tt
      → (file_id : String) × (resp : ApiResponse) × (rest : History) × (sent.0 ≡ ok resp)
        × (resp.ok ≡ true)
        × (d.message_codec.unmarshal (record { video = none }) resp.result
            ≡ (record { video = some file_id }, none))
        × ((upload_file d p m file w).1.calls
            ≡ (delete_object m.video_id, true)
              ∷ (save_metadata (record m { file_id = file_id }), true)
              ∷ rest)
  unfolding upload_file
  upload_file-remembers h = elim (Result-cases (send_file d p m file w).0) [
    | inl (id, e) ↦
        let (resp, answered, fine, decodes) = send_file-answer id e in
        (id, resp, (send_file d p m file w).1.calls, answered, fine, decodes, ground arith)
    | inr (inl (x, e)) ↦ cc (rw e at h)
    | inr (inr (x, e)) ↦ cc (rw e at h)
  ]
