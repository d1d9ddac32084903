-- ===== src/Srvenv.antt =====
-- internal/srvenv: the services that the bot is set up with.
pub mod Choice
use cribe.Prelude.{ℕ, String, ◌<>◌, Option, none, some, ◌==◌, not, if◌then◌else◌}
use cribe.Prelude.Decimal.{ℤ, pos}
use cribe.Exec.{Exec, pure, annotate, attempt, ◌>>=◌}
use cribe.Db.Config.{DbConfig, PoolLibrary, new_from_env}
use cribe.Session
use cribe.Session.{Backend}
use cribe.Session.RedisConfig.{RedisOptions}
use cribe.Session.Backends.{RedisClient, RedisBackend, new_redis, redis_backend, in_memory_backend}
use cribe.Storage.{Blob}
use cribe.Storage.Fs.{Os, new_filesystem_storage}
use cribe.Storage.S3.{S3, S3Client, S3Config, new_s3, s3_blob}

-- A `time.Duration` counts nanoseconds.
pub record RedisConfig : Type 0 where
  pub expiration : ℕ
  pub addr : String

pub record TelegramConfig : Type 0 where
  pub proxy_schema : String
  pub proxy_addr : String
  pub web_hook_url : String
  pub web_hook_addr : String
  pub token : String
  pub polling_timeout : ℤ

pub record AmqpConfig : Type 0 where
  pub connection_url : String
  pub heart_beat_duration : ℕ

pub record StorageConfig : Type 0 where
  pub type_name : String
  pub bucket : String
  pub s3 : S3Config

pub record Config : Type 0 where
  pub addr : String
  pub log_level : String
  pub telegram_updates_max_workers : ℤ
  pub fetching_max_workers : ℤ
  pub uploading_max_workers : ℤ
  pub hashing_func : String
  pub session_backend : String
  pub db : DbConfig
  pub redis : RedisConfig
  pub telegram : TelegramConfig
  pub rabbit_mq : AmqpConfig
  pub storage : StorageConfig

-- What the set-up calls of the libraries; `T`, `A` and `D` are the types of their clients, `P` that
-- of a parsed configuration of the pool, and `H`
-- that of S3's bodies.
pub record Libraries (T A P D H S : Type 0) : Type 0 where
  pub process : Exec S Config
  pub redis_client : RedisOptions ℕ (Unit {0}) (Unit {0}) → RedisClient ℕ S
  pub os : Os S
  pub new_session : String → String → String → Exec S (S3Client H S)
  pub new_bot_api_with_api_endpoint : String → String → Exec S T
  pub new_bot_api : String → Exec S T
  pub dial_config : String → ℕ → Exec S A
  pub pgxpool : PoolLibrary P D S

pub record Env (T A D S : Type 0) : Type 0 where
  pub config : Config
  pub db : D
  pub session_backend : Option (Backend S)
  pub telegram : T
  pub rabbit_mq : A
  pub blob : Option (Blob S)

-- botstate.RedisConfig{Expiration: …, Addr: …}: the other fields are zero.
abbrev redis_config : RedisConfig → Session.RedisConfig.RedisConfig ℕ (Unit {0}) (Unit {0})
redis_config cfg = record {
  expiration = cfg.expiration;
  network = "";
  addr = cfg.addr;
  dialer = none;
  username = "";
  password = "";
  db = pos 0;
  max_retries = pos 0;
  min_retry_backoff = 0;
  max_retry_backoff = 0;
  dial_timeout = 0;
  read_timeout = 0;
  write_timeout = 0;
  pool_size = pos 0;
  min_idle_conns = pos 0;
  max_conn_age = 0;
  pool_timeout = 0;
  idle_timeout = 0;
  idle_check_frequency = 0;
  tls_config = none;
}

module _ {T A P D H S : Type 0} (lib : Libraries T A P D H S) where
  -- A storage type that is not known gives a nil interface and no error: `none`.
  unfoldable pub provide_storage_for : Config → Exec S (Option (Blob S))
  unfolding new_s3
  provide_storage_for cfg =
      if cfg.storage.type_name == "fs"
      then pure (some (new_filesystem_storage lib.os))
      else if cfg.storage.type_name == "s3"
      then (do
        s3 ← annotate "new S3 storage" (new_s3 lib.new_session cfg.storage.s3)
        pure (some (s3_blob s3)))
      else pure none

  -- So does a backend type that is not known.
  unfoldable pub provide_session_backend_for : Config → Exec S (Option (Backend S))
  provide_session_backend_for cfg =
      if cfg.session_backend == "redis"
      then (do
        redis ←
            annotate "create redis session backend"
              (new_redis lib.redis_client (redis_config cfg.redis))
        pure (some (redis_backend redis)))
      else if cfg.session_backend == "in_memory"
      then pure (some in_memory_backend)
      else pure none

  unfoldable pub setup_amqp : AmqpConfig → Exec S A
  setup_amqp cfg =
      annotate "amqp dialing" (lib.dial_config cfg.connection_url cfg.heart_beat_duration)

  unfoldable pub setup_telegram : TelegramConfig → Exec S T
  setup_telegram cfg =
      if not (cfg.proxy_addr == "")
      then annotate "unable create telegram client with proxy" (
          lib.new_bot_api_with_api_endpoint cfg.token
            ((cfg.proxy_schema <> ("://" <> cfg.proxy_addr)) <> "/bot%s/%s"))
      else annotate "unable create telegram client" (lib.new_bot_api cfg.token)

  unfoldable pub setup : Exec S (Env T A D S)
  setup = do
    cfg ← annotate "env processing" lib.process
    session_backend ← annotate "setup session backend" (provide_session_backend_for cfg)
    telegram ← annotate "setup telegram client" (setup_telegram cfg.telegram)
    rabbit_mq ← annotate "setup rabbitmq connection" (setup_amqp cfg.rabbit_mq)
    blob ← annotate "setup storage" (provide_storage_for cfg)
    database ← annotate "setup db" (new_from_env lib.pgxpool cfg.db)
    pure (record {
      config = cfg;
      db = database;
      session_backend = session_backend;
      telegram = telegram;
      rabbit_mq = rabbit_mq;
      blob = blob;
    })
