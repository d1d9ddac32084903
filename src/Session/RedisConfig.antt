-- ===== src/Session/RedisConfig.antt =====
-- pkg/botstate/redis.go: the settings of the redis backend. `E` is the type of durations, `D` that of
-- dialers and `T` that of TLS settings; those two may be nil.
use cribe.Prelude.{String, Option}
use cribe.Prelude.Decimal.{ℤ}

pub record RedisConfig (E D T : Type 0) : Type 0 where
  pub expiration : E
  pub network : String
  pub addr : String
  pub dialer : Option D
  pub username : String
  pub password : String
  pub db : ℤ
  pub max_retries : ℤ
  pub min_retry_backoff : E
  pub max_retry_backoff : E
  pub dial_timeout : E
  pub read_timeout : E
  pub write_timeout : E
  pub pool_size : ℤ
  pub min_idle_conns : ℤ
  pub max_conn_age : E
  pub pool_timeout : E
  pub idle_timeout : E
  pub idle_check_frequency : E
  pub tls_config : Option T

-- redis.Options, as far as it is filled in
pub record RedisOptions (E D T : Type 0) : Type 0 where
  pub network : String
  pub addr : String
  pub dialer : Option D
  pub username : String
  pub password : String
  pub db : ℤ
  pub max_retries : ℤ
  pub min_retry_backoff : E
  pub max_retry_backoff : E
  pub dial_timeout : E
  pub read_timeout : E
  pub write_timeout : E
  pub pool_size : ℤ
  pub min_idle_conns : ℤ
  pub max_conn_age : E
  pub pool_timeout : E
  pub idle_timeout : E
  pub idle_check_frequency : E
  pub tls_config : Option T

unfoldable pub options_of : {E D T : Type 0} → RedisConfig E D T → RedisOptions E D T
options_of opt = record {
  network = opt.network;
  addr = opt.addr;
  dialer = opt.dialer;
  username = opt.username;
  password = opt.password;
  db = opt.db;
  max_retries = opt.max_retries;
  min_retry_backoff = opt.min_retry_backoff;
  max_retry_backoff = opt.max_retry_backoff;
  dial_timeout = opt.dial_timeout;
  read_timeout = opt.read_timeout;
  write_timeout = opt.write_timeout;
  pool_size = opt.pool_size;
  min_idle_conns = opt.min_idle_conns;
  max_conn_age = opt.max_conn_age;
  pool_timeout = opt.pool_timeout;
  idle_timeout = opt.idle_timeout;
  idle_check_frequency = opt.idle_check_frequency;
  tls_config = opt.tls_config;
}
