-- ===== src/Tests/Stores.antt =====
-- Sessions, objects and rows at concrete inputs.
use cribe.Json.Quoting.{escape, quote}
use cribe.Json.Scanner.{parse}
use cribe.Json.Fields.{unmarshal}
use cribe.Session.Encoding.{state_json}
use cribe.Prelude.{
  ℕ, String, Bool, false, Option, none, some, [], ◌∷◌, ◌≡◌, ◌≢◌, refl, arith, ◌⊎◌, lookup, ◌==◌,
  eq_iff, if◌then◌else◌,
}
use cribe.Errors.{
  Error, sentinel, message, object_not_found, redis_nil, session_not_found, errors_is,
}
use cribe.Exec.{Result, ok, err, pure}
use cribe.Bytes.{Bytes}
use cribe.Fsm.{StateMachine}
use cribe.Session.{Session, new_session, flush, load}
use cribe.Session.Backends.{RedisClient, RedisBackend, redis_backend}
use cribe.Session.RoundTrip.{IsKeeping, IsRedis, redis_backend-IsKeeping, load-flush}
use cribe.Storage.Fs.{Os, new_filesystem_storage}
use cribe.Storage.S3.{S3, S3Client, s3_blob}
use cribe.Storage.Keeping.{IsKeepingBlob, IsFileSystem, new_filesystem_storage-IsKeepingBlob}
use cribe.Storage.KeepingS3.{IsBucketStore, s3_blob-IsKeepingBlob}
use cribe.Tests.Fake.{Outside, sessions, sessions_keeping}

abbrev machine : StateMachine String ℕ
machine = record { prev = "idle"; curr = "busy"; states = [] }

abbrev blank : StateMachine String ℕ
blank = record { prev = ""; curr = ""; states = [] }

abbrev session : Session Outside String ℕ
session = record { machine = machine; identity = "7"; backend = sessions }

load-flush_example : ("busy" ≡ machine.curr) × ("idle" ≡ machine.prev)
unfolding flush load new_session state_json unmarshal parse quote escape
load-flush_example = load-flush session sessions_keeping blank session [] refl refl

-- A redis client that keeps its values in a list.
abbrev value : Option Bytes → Result Bytes
value none = err (sentinel redis_nil)
value (some v) = ok v

abbrev client : RedisClient ℕ Outside
client = record {
  ping = pure tt;
  get = λ k s. (value (lookup k s), s);
  set = λ k v x s. (ok tt, (k, v) ∷ s);
  del = λ k. pure tt;
}

abbrev redis : RedisBackend ℕ Outside
redis = record { expiration = 3600; client = client }

client_get-ok :
    (k : String) (v : Bytes) (s : Outside) → value (lookup k s) ≡ ok v → lookup k s ≡ some v
client_get-ok k v s h = ground arith

client_get-absent :
    (k : String) (e : Error) (s : Outside) → value (lookup k s) ≡ err e → lookup k s ≡ none
client_get-absent k e s h = ground arith

client_get-foreign :
    (k : String) (e : Error) (s : Outside)
    → value (lookup k s) ≡ err e
    → errors_is e session_not_found ≡ false
unfolding errors_is
client_get-foreign k e s h = ground arith

client_set-any :
    (k j : String) (v : Bytes) (s : Outside)
    → (lookup j ((k, v) ∷ s) ≡ lookup j s) ⊎ ((k ≡ j) × (lookup j ((k, v) ∷ s) ≡ some v))
client_set-any k j v s = ground (arith, eq_iff k j)

abbrev client_IsRedis : IsRedis client
client_IsRedis = record {
  content = λ s k. lookup k s;
  get-ok = client_get-ok;
  get-absent = λ k e s h n. client_get-absent k e s h;
  get-foreign = client_get-foreign;
  get-content = λ k j s. refl;
  set-any = λ k j v x s. client_set-any k j v s;
  set-ok = λ k j v x s h. refl;
}

redis_backend-IsKeeping_example : IsKeeping (redis_backend redis)
redis_backend-IsKeeping_example = redis_backend-IsKeeping redis client_IsRedis

-- Files as a list of paths and contents, `none` for a path that was removed.
abbrev Files : Type 0
Files = String → Option Bytes

abbrev contents : Option Bytes → Result Bytes
contents none = err (message "file does not exist")
contents (some v) = ok v

abbrev put : String → Option Bytes → Files → Files
put p v s q = if p == q then v else s q

abbrev missing : Error → Bool
missing (message text) = text == "file does not exist"
missing e = false

abbrev os : Os Files
os = record {
  join = λ b k. k;
  write_file = λ p v s. (ok tt, put p (some v) s);
  read_file = λ p s. (contents (s p), s);
  remove = λ p s. (ok tt, put p none s);
  is_not_exist = missing;
}

contents-ok : (o : Option Bytes) (v : Bytes) → contents o ≡ ok v → o ≡ some v
contents-ok o v h = ground arith

contents-missing : (o : Option Bytes) (e : Error) → contents o ≡ err e → o ≡ none
contents-missing o e h = ground arith

contents-foreign :
    (o : Option Bytes) (e : Error) → contents o ≡ err e → errors_is e object_not_found ≡ false
unfolding errors_is
contents-foreign o e h = ground arith

put_same : (p : String) (v : Option Bytes) (s : Files) → put p v s p ≡ v
put_same p v s = ground (arith, eq_iff p p)

put_other : (p q : String) (v : Option Bytes) (s : Files) → p ≢ q → put p v s q ≡ s q
put_other p q v s n = ground (arith, eq_iff p q)

abbrev os_IsFileSystem : IsFileSystem os
os_IsFileSystem = record {
  file = λ s p. s p;
  read-ok = λ p v s h. contents-ok (s p) v h;
  read-missing = λ p e s h n. contents-missing (s p) e h;
  read-foreign = λ p e s h. contents-foreign (s p) e h;
  write-ok = λ p v s h. put_same p (some v) s;
  write-other = λ p q v s n. put_other p q (some v) s n;
  remove-ok = λ p s h. put_same p none s;
  remove-missing = λ p e s h n. put_same p none s;
  remove-other = λ p q s n. put_other p q none s n;
}

new_filesystem_storage-IsKeepingBlob_example : IsKeepingBlob (new_filesystem_storage os)
new_filesystem_storage-IsKeepingBlob_example =
    new_filesystem_storage-IsKeepingBlob os os_IsFileSystem

-- Buckets as a function of bucket and key; the body of a response is its contents.
abbrev Buckets : Type 0
Buckets = String → String → Option Bytes

abbrev code_of : Error → Option String
code_of (message text) = some text
code_of e = none

abbrev held : Option Bytes → Result Bytes
held none = err (message "NoSuchKey")
held (some v) = ok v

abbrev place : String → String → Option Bytes → Buckets → Buckets
place b k v s c = if b == c then put k v (s c) else s c

abbrev svc : S3Client Bytes Buckets
svc = record {
  put_object = λ b k control v s. (ok tt, place b k (some v) s);
  delete_object = λ b k s. (ok tt, place b k none s);
  get_object = λ b k s. (held (s b k), s);
  read_all = λ body. pure body;
  close_body = λ body. pure tt;
  code = code_of;
  err_code_no_such_bucket = "NoSuchBucket";
  err_code_no_such_key = "NoSuchKey";
}

held-ok :
    (o : Option Bytes) (body v : Bytes) (s : Buckets)
    → held o ≡ ok body
    → (svc.read_all body s).0 ≡ ok v
    → o ≡ some v
held-ok o body v s h k = ground arith

held-missing : (o : Option Bytes) (e : Error) → held o ≡ err e → o ≡ none
held-missing o e h = ground arith

held-foreign :
    (o : Option Bytes) (e : Error) → held o ≡ err e → errors_is e object_not_found ≡ false
unfolding errors_is
held-foreign o e h = ground arith

body-foreign :
    (body : Bytes) (e : Error) (s : Buckets)
    → (svc.read_all body s).0 ≡ err e
    → errors_is e object_not_found ≡ false
body-foreign body e s h = cc

place_same : (b k : String) (v : Option Bytes) (s : Buckets) → place b k v s b k ≡ v
place_same b k v s = ground (arith, eq_iff b b, eq_iff k k)

place_other :
    (b k : String) (v : Option Bytes) (s : Buckets) (p : String × String)
    → (b, k) ≢ p
    → place b k v s p.0 p.1 ≡ s p.0 p.1
place_other b k v s (c, j) n = ground (arith, eq_iff b c, eq_iff k j)

abbrev svc_IsBucketStore : IsBucketStore svc
svc_IsBucketStore = record {
  object = λ s p. s p.0 p.1;
  get-ok = λ b k body v s h r. held-ok (s b k) body v s h r;
  get-missing = λ b k e s h n. held-missing (s b k) e h;
  get-foreign = λ b k e s h. held-foreign (s b k) e h;
  read-foreign = λ body e s h. body-foreign body e s h;
  put-ok = λ b k control v s h. place_same b k (some v) s;
  put-other = λ b k control v s p n. place_other b k (some v) s p n;
  delete-ok = λ b k s h. place_same b k none s;
  delete-other = λ b k s p n. place_other b k none s p n;
}

abbrev s3 : S3 Bytes Buckets
s3 = record {
  svc = svc;
  cfg = record { region = "eu-west-1"; access_id = "id"; secret = "secret" };
}

s3_blob-IsKeepingBlob_example : IsKeepingBlob (s3_blob s3)
s3_blob-IsKeepingBlob_example = s3_blob-IsKeepingBlob s3 svc_IsBucketStore
