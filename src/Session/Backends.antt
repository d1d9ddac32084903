-- ===== src/Session/Backends.antt =====
-- The three backends: pkg/botstate/redis.go, noop.go and inmemory.go.
use cribe.Prelude.{String, if◌then◌else◌}
use cribe.Errors.{sentinel, session_not_found, redis_nil, errors_is}
use cribe.Exec.{Exec, pure, fail, raise, annotate, attempt}
use cribe.Bytes.{Bytes}
use cribe.Session.{Backend}
use cribe.Session.RedisConfig.{RedisConfig, RedisOptions, options_of}

-- What the program calls of the go-redis client. `E` is the type of expirations.
pub record RedisClient (E B : Type 0) : Type 0 where
  pub ping : Exec B (Unit {0})
  pub get : String → Exec B Bytes
  pub set : String → Bytes → E → Exec B (Unit {0})
  pub del : String → Exec B (Unit {0})

pub record RedisBackend (E B : Type 0) : Type 0 where
  pub expiration : E
  pub client : RedisClient E B

module _ {E B : Type 0} where
  -- `new_client` is `redis.NewClient`.
  unfoldable pub new_redis :
      {D T : Type 0}
      → (RedisOptions E D T → RedisClient E B)
      → RedisConfig E D T
      → Exec B (RedisBackend E B)
  unfolding options_of
  new_redis new_client opt s =
      let r : RedisBackend E B = record {
        expiration = opt.expiration;
        client = new_client (options_of opt);
      } in
      attempt r.client.ping (λ e. annotate "redis ping" (fail e)) (λ _. pure r) s

  unfoldable pub ping : RedisBackend E B → Exec B (Unit {0})
  ping r = annotate "ping to redis" r.client.ping

  unfoldable pub get : RedisBackend E B → String → Exec B Bytes
  get r k =
      attempt (r.client.get k)
        (λ e.
          if errors_is e redis_nil
          then fail (sentinel session_not_found)
          else annotate "redis get" (fail e))
        pure

  unfoldable pub set : RedisBackend E B → String → Bytes → Exec B (Unit {0})
  set r k v = annotate "unable set value" (r.client.set k v r.expiration)

  unfoldable pub delete : RedisBackend E B → String → Exec B (Unit {0})
  delete r k = annotate "redis delete" (r.client.del k)

  unfoldable pub redis_backend : RedisBackend E B → Backend B
  unfolding get set delete
  redis_backend r = record { get = get r; set = set r; delete = delete r }

module _ {B : Type 0} where
  unfoldable pub noop_backend : Backend B
  noop_backend = record { get = λ k. pure ""; set = λ k v. pure tt; delete = λ k. pure tt }

  unfoldable pub in_memory_backend : Backend B
  in_memory_backend = record {
    get = λ k. raise "implement me";
    set = λ k v. raise "implement me";
    delete = λ k. raise "implement me";
  }
