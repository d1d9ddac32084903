-- ===== src/Storage/KeepingS3.antt =====
-- S3 keeps the promise of a storage.
use cribe.Prelude.{String, true, false, Option, none, some, ◌≡◌, ◌≢◌, arith, inl, inr}
use cribe.Errors.{Error, object_not_found, errors_is}
use cribe.Exec.{ok, err, Result-cases}
use cribe.Bytes.{Bytes}
use cribe.Storage.S3.{S3, S3Client, is_missing, s3_blob}
use cribe.Storage.Keeping.{IsKeepingBlob}

-- What the program relies on of the AWS client: an object lies under its bucket and key.
pub record IsBucketStore {H S : Type 0} (svc : S3Client H S) : Type 0 where
  pub object : S → String × String → Option Bytes
  pub get-ok :
      (b k : String) (body : H) (v : Bytes) (s : S)
      → (svc.get_object b k s).0 ≡ ok body
      → (svc.read_all body (svc.get_object b k s).1).0 ≡ ok v
      → object s (b, k) ≡ some v
  pub get-missing :
      (b k : String) (e : Error) (s : S)
      → (svc.get_object b k s).0 ≡ err e
      → is_missing svc (svc.code e) ≡ true
      → object s (b, k) ≡ none
  pub get-foreign :
      (b k : String) (e : Error) (s : S)
      → (svc.get_object b k s).0 ≡ err e
      → errors_is e object_not_found ≡ false
  pub read-foreign :
      (body : H) (e : Error) (s : S)
      → (svc.read_all body s).0 ≡ err e
      → errors_is e object_not_found ≡ false
  pub put-ok :
      (b k control : String) (v : Bytes) (s : S)
      → (svc.put_object b k control v s).0 ≡ ok tt
      → object (svc.put_object b k control v s).1 (b, k) ≡ some v
  pub put-other :
      (b k control : String) (v : Bytes) (s : S) (p : String × String)
      → (b, k) ≢ p
      → object (svc.put_object b k control v s).1 p ≡ object s p
  pub delete-ok :
      (b k : String) (s : S)
      → (svc.delete_object b k s).0 ≡ ok tt
      → object (svc.delete_object b k s).1 (b, k) ≡ none
  pub delete-other :
      (b k : String) (s : S) (p : String × String)
      → (b, k) ≢ p
      → object (svc.delete_object b k s).1 p ≡ object s p

module _ {H S : Type 0} (s3 : S3 H S) (store : IsBucketStore s3.svc) where
  s3_get-ok :
      (b k : String) (v : Bytes) (s : S)
      → ((s3_blob s3).get_object b k s).0 ≡ ok v
      → store.object s (b, k) ≡ some v
  unfolding s3_blob
  s3_get-ok b k v s h = elim (Result-cases (s3.svc.get_object b k s).0) [
    | inl (body, g) ↦ ground (arith, store.get-ok b k body v s)
    | inr (inl (e, g)) ↦ ground arith
    | inr (inr (p, g)) ↦ ground arith
  ]

  s3_get-absent :
      (b k : String) (e : Error) (s : S)
      → ((s3_blob s3).get_object b k s).0 ≡ err e
      → errors_is e object_not_found ≡ true
      → store.object s (b, k) ≡ none
  unfolding s3_blob errors_is
  s3_get-absent b k e s h n = elim (Result-cases (s3.svc.get_object b k s).0) [
    | inl (body, g) ↦ let t = (s3.svc.get_object b k s).1 in grind (arith, store.read-foreign)
    | inr (inl (x, g)) ↦ ground (arith, store.get-missing b k x s, store.get-foreign b k x s)
    | inr (inr (p, g)) ↦ ground arith
  ]

  s3_create-ok :
      (b k : String) (v : Bytes) (s : S)
      → ((s3_blob s3).create_object b k v s).0 ≡ ok tt
      → store.object ((s3_blob s3).create_object b k v s).1 (b, k) ≡ some v
  unfolding s3_blob
  s3_create-ok b k v s h = ground (arith, store.put-ok b k "public, max-age=86400" v s)

  s3_create-other :
      (b k : String) (v : Bytes) (s : S) (p : String × String)
      → (b, k) ≢ p
      → store.object ((s3_blob s3).create_object b k v s).1 p ≡ store.object s p
  unfolding s3_blob
  s3_create-other b k v s p ne = store.put-other b k "public, max-age=86400" v s p ne

  s3_delete-ok :
      (b k : String) (s : S)
      → ((s3_blob s3).delete_object b k s).0 ≡ ok tt
      → store.object ((s3_blob s3).delete_object b k s).1 (b, k) ≡ none
  unfolding s3_blob
  s3_delete-ok b k s h = ground (arith, store.delete-ok b k s)

  s3_delete-other :
      (b k : String) (s : S) (p : String × String)
      → (b, k) ≢ p
      → store.object ((s3_blob s3).delete_object b k s).1 p ≡ store.object s p
  unfolding s3_blob
  s3_delete-other b k s p ne = store.delete-other b k s p ne

  -- The storage in S3 keeps its objects, each under its bucket and key, if the AWS client keeps
  -- objects and its errors are not the storage's own.
  pub s3_blob-IsKeepingBlob : IsKeepingBlob (s3_blob s3)
  s3_blob-IsKeepingBlob = record {
    Place = String × String;
    place = λ b k. (b, k);
    content = store.object;
    get-ok = s3_get-ok;
    get-absent = s3_get-absent;
    create-ok = s3_create-ok;
    create-other = s3_create-other;
    delete-ok = s3_delete-ok;
    delete-other = s3_delete-other;
  }
