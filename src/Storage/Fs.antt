-- ===== src/Storage/Fs.antt =====
-- internal/storage/fs.go: objects are files.
use cribe.Prelude.{String, Bool, if◌then◌else◌}
use cribe.Errors.{Error, sentinel, object_not_found}
use cribe.Exec.{Exec, pure, fail, annotate, attempt}
use cribe.Bytes.{Bytes}
use cribe.Storage.{Blob}

-- What the program calls of `os` and `path/filepath`; files are written with the mode 0600.
pub record Os (S : Type 0) : Type 0 where
  pub join : String → String → String
  pub write_file : String → Bytes → Exec S (Unit {0})
  pub read_file : String → Exec S Bytes
  pub remove : String → Exec S (Unit {0})
  pub is_not_exist : Error → Bool

module _ {S : Type 0} (os : Os S) where
  unfoldable pub create_object : String → String → Bytes → Exec S (Unit {0})
  create_object folder filename contents =
      let path = os.join folder filename in
      annotate "failed to create object" (os.write_file path contents)

  unfoldable pub delete_object : String → String → Exec S (Unit {0})
  delete_object folder filename =
      let path = os.join folder filename in
      attempt (os.remove path)
        (λ e. if os.is_not_exist e then pure tt else annotate "delete fs object" (fail e))
        (λ _. pure tt)

  unfoldable pub get_object : String → String → Exec S Bytes
  get_object folder filename =
      let path = os.join folder filename in
      attempt (os.read_file path)
        (λ e.
          if os.is_not_exist e
          then fail (sentinel object_not_found)
          else annotate "read file" (fail e))
        pure

  unfoldable pub new_filesystem_storage : Blob S
  unfolding create_object delete_object get_object
  new_filesystem_storage = record {
    create_object = create_object;
    delete_object = delete_object;
    get_object = get_object;
  }
