-- ===== src/Storage/Keeping.antt =====
-- What a storage promises, and that files and S3 keep the promise.
use cribe.Prelude.{String, true, false, Option, none, some, ◌≡◌, ◌≢◌, arith}
use cribe.Errors.{Error, object_not_found, errors_is}
use cribe.Exec.{ok, err}
use cribe.Bytes.{Bytes}
use cribe.Storage.{Blob}
use cribe.Storage.Fs.{Os, new_filesystem_storage}

-- An object lies at the place of its bucket and key. A call may fail; what a successful call answers
-- is the content, and it changes no other place.
pub record IsKeepingBlob {S : Type 0} (blob : Blob S) : Type 1 where
  pub Place : Type 0
  pub place : String → String → Place
  pub content : S → Place → Option Bytes
  pub get-ok :
      (b k : String) (v : Bytes) (s : S)
      → (blob.get_object b k s).0 ≡ ok v
      → content s (place b k) ≡ some v
  pub get-absent :
      (b k : String) (e : Error) (s : S)
      → (blob.get_object b k s).0 ≡ err e
      → errors_is e object_not_found ≡ true
      → content s (place b k) ≡ none
  pub create-ok :
      (b k : String) (v : Bytes) (s : S)
      → (blob.create_object b k v s).0 ≡ ok tt
      → content (blob.create_object b k v s).1 (place b k) ≡ some v
  pub create-other :
      (b k : String) (v : Bytes) (s : S) (p : Place)
      → place b k ≢ p
      → content (blob.create_object b k v s).1 p ≡ content s p
  pub delete-ok :
      (b k : String) (s : S)
      → (blob.delete_object b k s).0 ≡ ok tt
      → content (blob.delete_object b k s).1 (place b k) ≡ none
  pub delete-other :
      (b k : String) (s : S) (p : Place)
      → place b k ≢ p
      → content (blob.delete_object b k s).1 p ≡ content s p

module _ {S : Type 0} (blob : Blob S) (keeping : IsKeepingBlob blob) where
  -- What is created is read back, and is not reported missing; what is deleted is not read back.
  pub get-create :
      (b k : String) (v : Bytes) (s : S)
      → (blob.create_object b k v s).0 ≡ ok tt
      → let t = (blob.create_object b k v s).1 in
        ((u : Bytes) → (blob.get_object b k t).0 ≡ ok u → u ≡ v)
        × ((e : Error) → (blob.get_object b k t).0 ≡ err e → errors_is e object_not_found ≢ true)
        × ((u : Bytes)
            → (blob.get_object b k (blob.delete_object b k t).1).0 ≡ ok u
            → (blob.delete_object b k t).0 ≢ ok tt)
  get-create b k v s made = (
    λ u got. cc (keeping.create-ok b k v s made, keeping.get-ok b k u _ got),
    λ e got missing. cc (keeping.create-ok b k v s made, keeping.get-absent b k e _ got missing),
    λ u got gone. cc (keeping.delete-ok b k _ gone, keeping.get-ok b k u _ got),
  )

-- What the program relies on of a file system.
pub record IsFileSystem {S : Type 0} (os : Os S) : Type 0 where
  pub file : S → String → Option Bytes
  pub read-ok : (p : String) (v : Bytes) (s : S) → (os.read_file p s).0 ≡ ok v → file s p ≡ some v
  pub read-missing :
      (p : String) (e : Error) (s : S)
      → (os.read_file p s).0 ≡ err e
      → os.is_not_exist e ≡ true
      → file s p ≡ none
  pub read-foreign :
      (p : String) (e : Error) (s : S)
      → (os.read_file p s).0 ≡ err e
      → errors_is e object_not_found ≡ false
  pub write-ok :
      (p : String) (v : Bytes) (s : S)
      → (os.write_file p v s).0 ≡ ok tt
      → file (os.write_file p v s).1 p ≡ some v
  pub write-other :
      (p q : String) (v : Bytes) (s : S) → p ≢ q → file (os.write_file p v s).1 q ≡ file s q
  pub remove-ok : (p : String) (s : S) → (os.remove p s).0 ≡ ok tt → file (os.remove p s).1 p ≡ none
  pub remove-missing :
      (p : String) (e : Error) (s : S)
      → (os.remove p s).0 ≡ err e
      → os.is_not_exist e ≡ true
      → file (os.remove p s).1 p ≡ none
  pub remove-other : (p q : String) (s : S) → p ≢ q → file (os.remove p s).1 q ≡ file s q

module _ {S : Type 0} (os : Os S) (fs : IsFileSystem os) where
  fs_get-absent :
      (b k : String) (e : Error) (s : S)
      → ((new_filesystem_storage os).get_object b k s).0 ≡ err e
      → errors_is e object_not_found ≡ true
      → fs.file s (os.join b k) ≡ none
  unfolding new_filesystem_storage errors_is
  fs_get-absent b k e s h n = let p = os.join b k in grind (arith, fs.read-missing, fs.read-foreign)

  fs_delete-ok :
      (b k : String) (s : S)
      → ((new_filesystem_storage os).delete_object b k s).0 ≡ ok tt
      → fs.file ((new_filesystem_storage os).delete_object b k s).1 (os.join b k) ≡ none
  unfolding new_filesystem_storage
  fs_delete-ok b k s h = let p = os.join b k in grind (arith, fs.remove-ok p s, fs.remove-missing)

  fs_delete-other :
      (b k : String) (s : S) (q : String)
      → os.join b k ≢ q
      → fs.file ((new_filesystem_storage os).delete_object b k s).1 q ≡ fs.file s q
  unfolding new_filesystem_storage
  fs_delete-other b k s q ne = ground (arith, fs.remove-other (os.join b k) q s)

  fs_get-ok :
      (b k : String) (v : Bytes) (s : S)
      → ((new_filesystem_storage os).get_object b k s).0 ≡ ok v
      → fs.file s (os.join b k) ≡ some v
  unfolding new_filesystem_storage
  fs_get-ok b k v s h = ground (arith, fs.read-ok (os.join b k) v s)

  fs_create-ok :
      (b k : String) (v : Bytes) (s : S)
      → ((new_filesystem_storage os).create_object b k v s).0 ≡ ok tt
      → fs.file ((new_filesystem_storage os).create_object b k v s).1 (os.join b k) ≡ some v
  unfolding new_filesystem_storage
  fs_create-ok b k v s h = ground (arith, fs.write-ok (os.join b k) v s)

  fs_create-other :
      (b k : String) (v : Bytes) (s : S) (q : String)
      → os.join b k ≢ q
      → fs.file ((new_filesystem_storage os).create_object b k v s).1 q ≡ fs.file s q
  unfolding new_filesystem_storage
  fs_create-other b k v s q ne = fs.write-other (os.join b k) q v s ne

  -- The storage in files keeps its objects, each at its joined path, if the file system keeps files
  -- and its errors are not the storage's own.
  pub new_filesystem_storage-IsKeepingBlob : IsKeepingBlob (new_filesystem_storage os)
  new_filesystem_storage-IsKeepingBlob = record {
    Place = String;
    place = os.join;
    content = fs.file;
    get-ok = fs_get-ok;
    get-absent = fs_get-absent;
    create-ok = fs_create-ok;
    create-other = fs_create-other;
    delete-ok = fs_delete-ok;
    delete-other = fs_delete-other;
  }
