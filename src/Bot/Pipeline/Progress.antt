-- ===== src/Bot/Pipeline/Progress.antt =====
-- What was fetched can be uploaded.
use cribe.Bot.Encoding.{payload_json, encode_payload}
use cribe.Bot.Encoding.RoundTrip.{payload_json-marshal}
use cribe.Prelude.{eq_refl, ℕ, String, true, some, ◌≡◌, refl, subst, arith, inl, inr, Option-cases}
use cribe.Errors.{Error}
use cribe.Exec.{ok, Result-cases, annotate, ◌>>=◌, >>=-ok}
use cribe.Bytes.{Bytes}
use cribe.Db.{Metadata}
use cribe.Bot.Services.{Payload, Video, Format, Services, queue_uploading}
use cribe.Bot.World.{World, publish, create, check_done, get_video_context, fetch_by_metadata}
use cribe.Bot.Fetch.Storing.{fetch-hands_over}
use cribe.Bot.World.History.{published, latest}
use cribe.Bot.Fetch.{
  download, store_if_missing, record_metadata, hand_over, fetch_new, fetch_again, fetch_known,
  fetch, find_format,
}
use cribe.Bot.Upload.{upload}
use cribe.Bot.Pipeline.{
  fetch-ok, save-ok, get-ok, get-absent, create-ok, View, KeepsStores, OnlyMissing, is_some,
  is_ready,
}
use cribe.Bot.Pipeline.Uploading.{upload-published}

module _ {S : Type 0} (d : Services S) (keeps : KeepsStores d) (lookups : OnlyMissing d) where
  -- A stored object.
  store_if_missing-object :
      (c : ℕ) (k : String) (b : Bytes) (w : World S)
      → (store_if_missing d c k b w).0 ≡ ok tt
      → let view = keeps.view (store_if_missing d c k b w).1.outside in
        is_some (view.object k) ≡ true
  unfolding store_if_missing
  store_if_missing-object c k b w h =
      let (r, s) = d.storage.get_object d.bucket k w.outside in
      elim (Result-cases r) [
        | inl (x, g) ↦ ground (arith, get-ok d keeps k x w.outside g, keeps.get-view k w.outside)
        | inr (inl (e, g)) ↦
            ground (arith, get-absent d keeps lookups k e w.outside g, create-ok d keeps k b s)
        | inr (inr (e, g)) ↦ ground arith
      ]

  -- A row that was saved is there.
  saved-is_some :
      (x : Metadata) (s : S)
      → (d.metadata_db.save x s).0 ≡ ok tt
      → is_some ((keeps.view (d.metadata_db.save x s).1).row x.video_id x.mime x.quality) ≡ true
  saved-is_some x s h =
      rw (save-ok d keeps x s h) (rw (eq_refl x.video_id, eq_refl x.mime, eq_refl x.quality) refl)

  ready :
      (v : View) (p : Payload)
      → is_some (v.row p.video_id p.mime p.quality) ≡ true
      → is_some (v.object p.video_id) ≡ true
      → is_ready v p ≡ true
  ready v p row object = ground arith

  record_metadata-ready :
      (c : ℕ) (p : Payload) (v : Video) (f : Format) (w : World S)
      → is_some ((keeps.view w.outside).object p.video_id) ≡ true
      → (record_metadata d c p v f w).0 ≡ ok tt
      → is_ready (keeps.view (record_metadata d c p v f w).1.outside) p ≡ true
  unfolding record_metadata
  record_metadata-ready c p v f w object h =
      ready (keeps.view (record_metadata d c p v f w).1.outside) p
        (saved-is_some _ _ (ground arith)) (grind (arith, keeps.now-view, keeps.save-object))

  fetch_new-ready :
      (c : ℕ) (p : Payload) (v : Video) (f : Format) (encoded : Bytes) (w : World S)
      → v.id ≡ p.video_id
      → (fetch_new d c p v f encoded w).0 ≡ ok tt
      → is_ready (keeps.view (fetch_new d c p v f encoded w).1.outside) p ≡ true
  unfolding fetch_new
  fetch_new-ready c p v f encoded w same h =
      let publish = hand_over d c encoded in
      let record_it = λ (_ : Unit {0}). record_metadata d c p v f >>= λ _. publish in
      let store = λ (buf : Bytes). store_if_missing d c v.id buf >>= record_it in
      let checked = λ (buf : Bytes). check_done d >>= λ _. store buf in
      let (buf, g1, e1) = >>=-ok (download d c v f) checked w h in
      let w1 = (download d c v f w).1 in
      let (_, g2, e2) = >>=-ok (check_done d) (λ _. store buf) w1 (rw e1 at h) in
      let w2 = (check_done d w1).1 in
      let (_, g3, e3) = >>=-ok (store_if_missing d c v.id buf) record_it w2 (rw (e1, e2) at h) in
      let w3 = (store_if_missing d c v.id buf w2).1 in
      let (_, g4, e4) =
        >>=-ok (record_metadata d c p v f) (λ _. publish) w3 (rw (e1, e2, e3) at h) in
      let w4 = (record_metadata d c p v f w3).1 in
      rw (e1, e2, e3, e4)
        (rw (keeps.publish-view c queue_uploading encoded w4.outside) (
          record_metadata-ready c p v f w3
            (subst (λ k. is_some ((keeps.view w3.outside).object k) ≡ true) same
              (store_if_missing-object c v.id buf w2 g3))
            g4))

  download-view :
      (c : ℕ) (v : Video) (f : Format) (w : World S)
      → keeps.view (download d c v f w).1.outside ≡ keeps.view w.outside
  download-view c v f w =
      let (r, s) = d.youtube_client.get_stream_context v f w.outside in
      grind (arith, keeps.stream-view v f w.outside, keeps.read-view)

  fetch_again-ready :
      (c : ℕ) (p : Payload) (v : Video) (encoded : Bytes) (e : Error) (m : Metadata) (w : World S)
      → (keeps.view w.outside).row p.video_id p.mime p.quality ≡ some m
      → (fetch_again d c p v encoded e w).0 ≡ ok tt
      → is_ready (keeps.view (fetch_again d c p v encoded e w).1.outside) p ≡ true
  unfolding fetch_again
  fetch_again-ready c p v encoded e m w row h = elim (Option-cases (find_format d c v)) [
    | inl n ↦ absurd (ground arith)
    | inr (f, g) ↦
        let stored = λ (buf : Bytes).
          annotate "create object to storage" (create d p.video_id buf) >>= λ _.
          hand_over d c encoded in
        let (buf, g1, e1) = >>=-ok (download d c v f) stored w (rw g at h) in
        let w1 = (download d c v f w).1 in
        rw (g, e1)
          (ground (
            arith,
            rw (g, e1) at h,
            download-view c v f w,
            create-ok d keeps p.video_id buf w1.outside,
            keeps.create-row p.video_id buf w1.outside,
            keeps.publish-view c queue_uploading encoded
                (d.storage.create_object d.bucket p.video_id buf w1.outside).1,
          ))
  ]

  fetch_known-ready :
      (c : ℕ) (p : Payload) (v : Video) (encoded : Bytes) (m : Metadata) (w : World S)
      → (keeps.view w.outside).row p.video_id p.mime p.quality ≡ some m
      → (fetch_known d c p v encoded m w).0 ≡ ok tt
      → is_ready (keeps.view (fetch_known d c p v encoded m w).1.outside) p ≡ true
  unfolding fetch_known
  fetch_known-ready c p v encoded m w row h =
      let (r, s) = d.storage.get_object d.bucket p.video_id w.outside in
      elim (Result-cases r) [
        | inl (x, g) ↦ ground (
          arith,
          get-ok d keeps p.video_id x w.outside g,
          keeps.get-view p.video_id w.outside,
          keeps.publish-view c queue_uploading encoded s,
          keeps.publish-view c queue_uploading encoded w.outside,
        )
        | inr (inl (e, g)) ↦ grind (
          arith,
          fetch_again-ready c p v encoded e m,
          keeps.get-view p.video_id w.outside,
          keeps.publish-view c queue_uploading encoded w.outside,
        )
        | inr (inr (e, g)) ↦ ground (arith, keeps.publish-view c queue_uploading encoded w.outside)
      ]

  fetch-ready :
      (c : ℕ) (p : Payload) (v : Video) (f : Format) (encoded : Bytes) (w : World S)
      → (d.youtube_client.get_video_context p.video_id w.outside).0 ≡ ok v
      → v.id ≡ p.video_id
      → find_format d c v ≡ some f
      → payload_json.marshal (record p { mime = f.mime_type; quality = f.quality }) ≡ ok encoded
      → (fetch d c p w).0 ≡ ok tt
      → is_ready
          (keeps.view (fetch d c p w).1.outside)
          (record p { mime = f.mime_type; quality = f.quality })
        ≡ true
  unfolding fetch
  fetch-ready c p v f encoded w e same g m h =
      let q = record p { mime = f.mime_type; quality = f.quality } in
      let w1 = (get_video_context d p.video_id w).1 in
      let w2 = (fetch_by_metadata d p.video_id f.mime_type f.quality w1).1 in
      let told = keeps.fetch-view p.video_id f.mime_type f.quality w1.outside in
      elim (Result-cases
        (d.metadata_db.fetch_by_metadata p.video_id f.mime_type f.quality w1.outside).0) [
          | inl (x, r) ↦ ground (
            arith,
            told,
            fetch-ok d keeps p.video_id f.mime_type f.quality x w1.outside r,
            fetch_known-ready c q v encoded x w2,
          )
          | inr (inl (x, r)) ↦ ground (arith, fetch_new-ready c q v f encoded w2)
          | inr (inr (x, r)) ↦ ground arith
        ]

  -- Over stores that keep what they are given, and where YouTube gives a video under the id that was
  -- asked for: a fetch that returns no error has published a message whose upload never asks for a
  -- fetch again, whatever fails in it, if the stores hold by then what they held after the fetch.
  pub fetch-upload :
      (c : ℕ) (p : Payload) (w : World S)
      → (fetch d c p w).0 ≡ ok tt
      → ((v : Video)
          → (d.youtube_client.get_video_context p.video_id w.outside).0 ≡ ok v
          → v.id ≡ p.video_id)
      → (q : Payload) × (q.video_id ≡ p.video_id)
        × (q.chat_id ≡ p.chat_id)
        × (latest (fetch d c p w).1.calls ≡ some (publish queue_uploading (encode_payload q), true))
        × ((u : World S)
            → keeps.view u.outside ≡ keeps.view (fetch d c p w).1.outside
            → published (upload d q u).1.calls ≡ published u.calls)
  fetch-upload c p w h same =
      let (v, f, e, g, last) = fetch-hands_over d c p w h in
      let q = record p { mime = f.mime_type; quality = f.quality } in
      let ready =
        fetch-ready c p v f (encode_payload q) w e (same v e) g (payload_json-marshal q) h in
      (
        record p { mime = f.mime_type; quality = f.quality },
        refl,
        refl,
        last,
        λ u s.
            upload-published d keeps lookups (record p { mime = f.mime_type; quality = f.quality })
              u (rw s ready),
      )
