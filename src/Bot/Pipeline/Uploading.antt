-- ===== src/Bot/Pipeline/Uploading.antt =====
-- What an upload asks for, by what the stores hold.
use cribe.Bot.Encoding.{payload_json, encode_payload}
use cribe.Prelude.{◌+◌, none, ◌∷◌, ℕ, true, some, ◌≡◌, arith, inl, inr}
use cribe.Exec.{ok, Result-cases}
use cribe.Bytes.{Bytes}
use cribe.Db.{Metadata}
use cribe.Bot.Services.{Payload, Services, zero_payload, queue_fetching}
use cribe.Bot.World.{World}
use cribe.Bot.World.History.{messages, settled, published}
use cribe.Bot.Upload.{send_file, upload_file, upload_known, upload_with, upload}
use cribe.Bot.Pipeline.{fetch-ok, fetch-absent, get-absent, KeepsStores, OnlyMissing, is_ready}

module _ {S : Type 0} (d : Services S) (keeps : KeepsStores d) (lookups : OnlyMissing d) where
  upload_known-published :
      (p : Payload) (c : ℕ) (encoded : Bytes) (m : Metadata) (w : World S)
      → (keeps.view w.outside).row p.video_id p.mime p.quality ≡ some m
      → is_ready (keeps.view w.outside) p ≡ true
      → published (upload_known d c p encoded m w).1.calls ≡ published w.calls
  unfolding upload_known upload_file send_file
  upload_known-published p c encoded m w row ready = grind (arith, get-absent d keeps lookups)

  upload_with-published :
      (p : Payload) (c : ℕ) (encoded : Bytes) (w : World S)
      → is_ready (keeps.view w.outside) p ≡ true
      → published (upload_with d c p encoded w).1.calls ≡ published w.calls
  unfolding upload_with
  upload_with-published p c encoded w ready =
      let s = (d.broker.queue_declare c "fetching" w.outside).1 in
      elim (Result-cases (d.metadata_db.fetch_by_metadata p.video_id p.mime p.quality s).0) [
        | inl (x, g) ↦ grind (
          arith,
          upload_known-published,
          keeps.declare-view c "fetching" w.outside,
          keeps.fetch-view p.video_id p.mime p.quality s,
          fetch-ok d keeps p.video_id p.mime p.quality x s g,
        )
        | inr (inl (e, g)) ↦ ground (
          arith,
          keeps.declare-view c "fetching" w.outside,
          fetch-absent d keeps p.video_id p.mime p.quality e s g,
        )
        | inr (inr (e, g)) ↦ ground arith
      ]

  -- An upload whose needs the stores hold never goes back to the queue of fetches, whatever fails.
  pub upload-published :
      (p : Payload) (w : World S)
      → is_ready (keeps.view w.outside) p ≡ true
      → published (upload d p w).1.calls ≡ published w.calls
  unfolding upload
  upload-published p w ready = grind (arith, upload_with-published, keeps.chan-view)

  upload_with-absent :
      (p : Payload) (c : ℕ) (encoded : Bytes) (w : World S)
      → (keeps.view w.outside).row p.video_id p.mime p.quality ≡ none
      → (upload_with d c p encoded w).0 ≡ ok tt
      → (messages (upload_with d c p encoded w).1.calls
          ≡ (queue_fetching, encoded) ∷ messages w.calls)
        × (settled (upload_with d c p encoded w).1.calls ≡ settled w.calls + 1)
  unfolding upload_with
  upload_with-absent p c encoded w row h =
      let s = (d.broker.queue_declare c "fetching" w.outside).1 in
      elim (Result-cases (d.metadata_db.fetch_by_metadata p.video_id p.mime p.quality s).0) [
        | inl (x, g) ↦ absurd (
            ground (
              arith,
              keeps.declare-view c "fetching" w.outside,
              fetch-ok d keeps p.video_id p.mime p.quality x s g,
            ))
        | inr (inl (e, g)) ↦ ground arith
        | inr (inr (e, g)) ↦ absurd (ground arith)
      ]

  -- Over stores that keep what they are given, an upload for which there is no row, as of a job that was handed back without
  -- its type and quality, does nothing else when it returns no error than to ask for a fetch, with the
  -- video and the chat alone.
  upload-absent :
      (p : Payload) (w : World S)
      → (keeps.view w.outside).row p.video_id p.mime p.quality ≡ none
      → (upload d p w).0 ≡ ok tt
      → (messages (upload d p w).1.calls
          ≡ (
            queue_fetching,
            encode_payload (record zero_payload { video_id = p.video_id; chat_id = p.chat_id }),
          )
            ∷ messages w.calls)
        × (settled (upload d p w).1.calls ≡ settled w.calls + 1)
  unfolding upload payload_json
  upload-absent p w row h =
      let q = record zero_payload { video_id = p.video_id; chat_id = p.chat_id } in
      let done = λ (c : ℕ) (u : World S). upload_with-absent p c (encode_payload q) u in
      (grind (arith, done, keeps.chan-view), grind (arith, done, keeps.chan-view))
