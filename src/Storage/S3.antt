-- ===== src/Storage/S3.antt =====
-- internal/storage/s3.go: objects in Amazon S3.
use cribe.Prelude.{String, ◌<>◌, Bool, false, Option, none, some, ◌==◌, ◌||◌, if◌then◌else◌}
use cribe.Errors.{Error, sentinel, object_not_found}
use cribe.Exec.{Exec, pure, ◌>>=◌, fail, annotate, attempt, deferring}
use cribe.Bytes.{Bytes}
use cribe.Storage.{Blob}

pub record S3Config : Type 0 where
  pub region : String
  pub access_id : String
  pub secret : String

-- What the program calls of the AWS client. `H` is the type of a response's body, and `code` is
-- the code of an error that is an `awserr.Error`.
pub record S3Client (H S : Type 0) : Type 0 where
  pub put_object : String → String → String → Bytes → Exec S (Unit {0})
  pub delete_object : String → String → Exec S (Unit {0})
  pub get_object : String → String → Exec S H
  pub read_all : H → Exec S Bytes
  pub close_body : H → Exec S (Unit {0})
  pub code : Error → Option String
  pub err_code_no_such_bucket : String
  pub err_code_no_such_key : String

pub record S3 (H S : Type 0) : Type 0 where
  pub svc : S3Client H S
  pub cfg : S3Config

module _ {H S : Type 0} where
  -- `new_session` is `session.NewSession` with static credentials, and `s3.New` of what it gives.
  unfoldable pub new_s3 :
      (String → String → String → Exec S (S3Client H S)) → S3Config → Exec S (S3 H S)
  new_s3 new_session cfg = do
    svc ← annotate "create session" (new_session cfg.region cfg.access_id cfg.secret)
    pure (record { svc = svc; cfg = cfg })

  unfoldable pub create_object : S3 H S → String → String → Bytes → Exec S (Unit {0})
  create_object s bucket key contents =
      annotate "create object" (s.svc.put_object bucket key "public, max-age=86400" contents)

  unfoldable pub delete_object : S3 H S → String → String → Exec S (Unit {0})
  delete_object s bucket key = annotate "delete object" (s.svc.delete_object bucket key)

  abbrev pub is_missing : S3Client H S → Option String → Bool
  is_missing svc none = false
  is_missing svc (some code) =
      code == svc.err_code_no_such_bucket || code == svc.err_code_no_such_key

  unfoldable pub get_object : S3 H S → String → String → Exec S Bytes
  get_object s bucket key =
      attempt (s.svc.get_object bucket key)
        (λ e.
          if is_missing s.svc (s.svc.code e)
          then fail (sentinel object_not_found)
          else annotate "get object" (fail e))
        (λ body. deferring (s.svc.close_body body) (annotate "read object" (s.svc.read_all body)))

  unfoldable pub public_access : S3 H S → String → String → String
  public_access s bucket key =
      "https://" <> (bucket <> (".s3." <> (s.cfg.region <> (".amazonaws.com/" <> key))))

  unfoldable pub s3_blob : S3 H S → Blob S
  unfolding create_object delete_object get_object
  s3_blob s = record {
    create_object = create_object s;
    delete_object = delete_object s;
    get_object = get_object s;
  }
