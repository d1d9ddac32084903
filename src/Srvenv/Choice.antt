-- ===== src/Srvenv/Choice.antt =====
-- Which settings set the bot up without a storage or a session backend.
use cribe.Prelude.{Bool, true, false, Option, none, some, ◌≡◌, arith, ◌==◌, ◌||◌}
use cribe.Exec.{ok}
use cribe.Session.{Backend}
use cribe.Storage.{Blob}
use cribe.Session.Backends.{new_redis}
use cribe.Storage.S3.{new_s3}
use cribe.Db.Config.{new_from_env}
use cribe.Srvenv.{Config, Libraries, Env, provide_storage_for, provide_session_backend_for, setup}

abbrev pub is_set {ℓ} : {A : Type ℓ} → Option A → Bool
is_set none = false
is_set (some a) = true

module _ {T A P D H S : Type 0} (lib : Libraries T A P D H S) where
  provide_storage_for-is_set :
      (cfg : Config) (s : S) (o : Option (Blob S))
      → (provide_storage_for lib cfg s).0 ≡ ok o
      → is_set o ≡ (cfg.storage.type_name == "fs" || cfg.storage.type_name == "s3")
  unfolding provide_storage_for new_s3
  provide_storage_for-is_set cfg s o h = ground arith

  provide_session_backend_for-is_set :
      (cfg : Config) (s : S) (o : Option (Backend S))
      → (provide_session_backend_for lib cfg s).0 ≡ ok o
      → is_set o ≡ (cfg.session_backend == "redis" || cfg.session_backend == "in_memory")
  unfolding provide_session_backend_for new_redis
  provide_session_backend_for-is_set cfg s o h = ground arith

  -- A set-up that returns no error has a storage exactly if the configured type is "fs" or "s3", and a
  -- session backend exactly if the configured type is "redis" or "in_memory": another name is not an
  -- error, and leaves a nil interface in the environment.
  pub setup-is_set :
      (s : S) (env : Env T A D S)
      → (setup lib s).0 ≡ ok env
      → let cfg = env.config in
        (is_set env.blob ≡ (cfg.storage.type_name == "fs" || cfg.storage.type_name == "s3"))
        × (is_set env.session_backend
            ≡ (cfg.session_backend == "redis" || cfg.session_backend == "in_memory"))
  unfolding setup new_from_env
  setup-is_set s env h =
      grind (arith, provide_storage_for-is_set, provide_session_backend_for-is_set)
