-- ===== src/Session/RoundTrip.antt =====
-- A session that is flushed is loaded again, over any backend that keeps what it is given; and the
-- redis backend is one if the client is.
use cribe.Session.Encoding.{encode_state, zero_state}
use cribe.Session.Encoding.RoundTrip.{state_json-marshal, state_json-unmarshal}
use cribe.Prelude.{
  ◌⊎◌, String, true, false, ◌≡◌, Option, none, some, arith, ◌==◌, eq_refl, inl, inr, if◌then◌else◌,
}
use cribe.Errors.{Error, session_not_found, redis_nil, errors_is}
use cribe.Exec.{ok, err, Result-cases}
use cribe.Bytes.{Bytes}
use cribe.Fsm.{StateMachine}
use cribe.Session.{Backend, Session, new_session, flush, load}
use cribe.Session.Backends.{RedisClient, RedisBackend, redis_backend}

-- A call may fail. What a successful call answers is the content, and only a successful `set`
-- changes it.
pub record IsKeeping {B : Type 0} (backend : Backend B) : Type 1 where
  pub content : B → String → Option Bytes
  pub get-ok : (k : String) (v : Bytes) (s : B) → (backend.get k s).0 ≡ ok v → content s k ≡ some v
  pub get-absent :
      (k : String) (e : Error) (s : B)
      → (backend.get k s).0 ≡ err e
      → errors_is e session_not_found ≡ true
      → content s k ≡ none
  pub get-content : (k j : String) (s : B) → content (backend.get k s).1 j ≡ content s j
  -- A `set` that fails has been done or not.
  pub set-any :
      (k j : String) (v : Bytes) (s : B)
      → (content (backend.set k v s).1 j ≡ content s j)
        ⊎ ((k ≡ j) × (content (backend.set k v s).1 j ≡ some v))
  pub set-ok :
      (k j : String) (v : Bytes) (s : B)
      → (backend.set k v s).0 ≡ ok tt
      → content (backend.set k v s).1 j ≡ (if k == j then some v else content s j)

-- What redis documents of GET and SET, for a key that does not expire between two calls.
pub record IsRedis {E B : Type 0} (client : RedisClient E B) : Type 1 where
  pub content : B → String → Option Bytes
  pub get-ok : (k : String) (v : Bytes) (s : B) → (client.get k s).0 ≡ ok v → content s k ≡ some v
  pub get-absent :
      (k : String) (e : Error) (s : B)
      → (client.get k s).0 ≡ err e
      → errors_is e redis_nil ≡ true
      → content s k ≡ none
  pub get-foreign :
      (k : String) (e : Error) (s : B)
      → (client.get k s).0 ≡ err e
      → errors_is e session_not_found ≡ false
  pub get-content : (k j : String) (s : B) → content (client.get k s).1 j ≡ content s j
  pub set-any :
      (k j : String) (v : Bytes) (x : E) (s : B)
      → (content (client.set k v x s).1 j ≡ content s j)
        ⊎ ((k ≡ j) × (content (client.set k v x s).1 j ≡ some v))
  pub set-ok :
      (k j : String) (v : Bytes) (x : E) (s : B)
      → (client.set k v x s).0 ≡ ok tt
      → content (client.set k v x s).1 j ≡ (if k == j then some v else content s j)

module _ {E B : Type 0} (r : RedisBackend E B) (redis : IsRedis r.client) where
  redis_get-ok :
      (k : String) (v : Bytes) (s : B)
      → ((redis_backend r).get k s).0 ≡ ok v
      → redis.content s k ≡ some v
  unfolding redis_backend
  redis_get-ok k v s h = ground (arith, redis.get-ok k v s)

  redis_get-absent :
      (k : String) (e : Error) (s : B)
      → ((redis_backend r).get k s).0 ≡ err e
      → errors_is e session_not_found ≡ true
      → redis.content s k ≡ none
  unfolding redis_backend errors_is
  redis_get-absent k e s h n = grind (arith, redis.get-absent, redis.get-foreign)

  redis_get-content :
      (k j : String) (s : B) → redis.content ((redis_backend r).get k s).1 j ≡ redis.content s j
  unfolding redis_backend
  redis_get-content k j s = ground (arith, redis.get-content k j s)

  redis_set-any :
      (k j : String) (v : Bytes) (s : B)
      → (redis.content ((redis_backend r).set k v s).1 j ≡ redis.content s j)
        ⊎ ((k ≡ j) × (redis.content ((redis_backend r).set k v s).1 j ≡ some v))
  unfolding redis_backend
  redis_set-any k j v s = redis.set-any k j v r.expiration s

  redis_set-ok :
      (k j : String) (v : Bytes) (s : B)
      → ((redis_backend r).set k v s).0 ≡ ok tt
      → redis.content ((redis_backend r).set k v s).1 j
        ≡ (if k == j then some v else redis.content s j)
  unfolding redis_backend
  redis_set-ok k j v s h = ground (arith, redis.set-ok k j v r.expiration s)

  -- The redis backend keeps what it is given, if the client behaves as redis documents.
  pub redis_backend-IsKeeping : IsKeeping (redis_backend r)
  redis_backend-IsKeeping = record {
    content = redis.content;
    get-ok = redis_get-ok;
    get-absent = redis_get-absent;
    get-content = redis_get-content;
    set-any = redis_set-any;
    set-ok = redis_set-ok;
  }

module _ {B C W : Type 0} (s : Session B C W) (keeping : IsKeeping s.backend) where
  -- What a flush writes.
  abbrev flushed : Bytes
  flushed = encode_state (record { current = s.machine.curr; previous = s.machine.prev })

  flush-content :
      (x : B) → (flush s x).0 ≡ ok tt → keeping.content (flush s x).1 s.identity ≡ some flushed
  unfolding flush
  flush-content x h = ground (
    arith,
    state_json-marshal (record { current = s.machine.curr; previous = s.machine.prev }),
    keeping.set-ok s.identity s.identity flushed x,
    eq_refl s.identity,
  )

  load_of_content :
      (m : StateMachine C W) (u : Session B C W) (y : B)
      → keeping.content y s.identity ≡ some flushed
      → (load (new_session s.identity s.backend m) y).0 ≡ ok u
      → (u.machine.curr ≡ s.machine.curr) × (u.machine.prev ≡ s.machine.prev)
  unfolding load new_session
  load_of_content m u y c h = elim (Result-cases (s.backend.get s.identity y).0) [
    | inl (v, g) ↦ ground (
      arith,
      keeping.get-ok s.identity v y g,
      state_json-unmarshal (record { current = s.machine.curr; previous = s.machine.prev })
          zero_state,
    )
    | inr (inl (e, g)) ↦ ground (arith, keeping.get-absent s.identity e y g)
    | inr (inr (p, g)) ↦ ground arith
  ]

  -- If the backend keeps what it is given, then after a flush that succeeds, a load in a fresh session
  -- of the same identity that succeeds restores the current and the previous state, whatever machine
  -- the fresh session started with.
  pub load-flush :
      (m : StateMachine C W) (u : Session B C W) (x : B)
      → (flush s x).0 ≡ ok tt
      → (load (new_session s.identity s.backend m) (flush s x).1).0 ≡ ok u
      → (u.machine.curr ≡ s.machine.curr) × (u.machine.prev ≡ s.machine.prev)
  load-flush m u x f l = load_of_content m u (flush s x).1 (flush-content x f) l
