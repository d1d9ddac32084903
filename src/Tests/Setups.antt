-- ===== src/Tests/Setups.antt =====
-- The set-up, the updates and the program's end at concrete inputs.
use cribe.Prelude.{ℕ, String, true, false, none, some, [], ◌∷◌, ◌≡◌, refl}
use cribe.Prelude.Decimal.{pos}
use cribe.Errors.{Error, message}
use cribe.Exec.{Result, ok, panic, pure, fail}
use cribe.Session.Backends.{RedisClient, new_redis, redis_backend}
use cribe.Storage.Fs.{Os}
use cribe.Db.Config.{new_from_env}
use cribe.Bot.Updates.{TelegramApi, options_of, serve_webhook, setup_telegram_mode}
use cribe.Bot.Dispatcher.{Connection, Dispatcher, new_dispatcher}
use cribe.Srvenv.{
  Config, Libraries, Env, provide_storage_for, provide_session_backend_for, setup_amqp,
  setup_telegram, setup,
}
use cribe.Entry.{Races, returned, fatal, banner, main}
use cribe.Entry.Assembly.{Rest, Runs, assembly, main-returned}
use cribe.Tests.Fake.{Outside}
use cribe.Tests.Pipeline.{new_video}

abbrev lost : Error
lost = message "connection lost"

-- A set-up over files and redis, and one whose storage type is misspelt.
abbrev config : String → Config
config storage = record {
  addr = ":8282";
  log_level = "error";
  telegram_updates_max_workers = pos 2;
  fetching_max_workers = pos 2;
  uploading_max_workers = pos 2;
  hashing_func = "md5";
  session_backend = "redis";
  db = record {
    name = "cribe";
    user = "postgres";
    host = "localhost";
    port = pos 5432;
    ssl_mode = "disable";
    conn_timeout = pos 5;
    password = "secret";
    pool_min_conns = pos 10;
    pool_max_conns = pos 50;
  };
  redis = record { expiration = 3600; addr = "localhost" };
  telegram = record {
    proxy_schema = "https";
    proxy_addr = "";
    web_hook_url = "";
    web_hook_addr = "";
    token = "token";
    polling_timeout = pos 60;
  };
  rabbit_mq = record { connection_url = "amqp://localhost"; heart_beat_duration = 10 };
  storage = record {
    type_name = storage;
    bucket = "b";
    s3 = record { region = "eu-west-1"; access_id = "id"; secret = "secret" };
  };
}

abbrev client : RedisClient ℕ Outside
client = record { ping = pure tt; get = λ k. fail lost; set = λ k v x. pure tt; del = λ k. pure tt }

abbrev os : Os Outside
os = record {
  join = λ b k. k;
  write_file = λ p v. pure tt;
  read_file = λ p. fail lost;
  remove = λ p. pure tt;
  is_not_exist = λ e. false;
}

abbrev connection : Connection Outside
connection = record {
  channel = pure 7;
  publish = λ c q b. pure tt;
  queue_declare = λ c q. pure tt;
  consume = λ c q. pure [];
  close_channel = λ c s. (none, s);
}

abbrev libraries : String → Libraries ℕ (Connection Outside) ℕ ℕ ℕ Outside
libraries storage = record {
  process = pure (config storage);
  redis_client = λ cfg. client;
  os = os;
  new_session = λ region id secret. fail lost;
  new_bot_api_with_api_endpoint = λ token endpoint. pure 1;
  new_bot_api = λ token. pure 1;
  dial_config = λ url beat. pure connection;
  pgxpool = record {
    parse_config = λ dsn. pure 4;
    connect_config = λ cfg ping. pure 3;
    close_pool = λ db s. s;
  };
}

abbrev misspelt : Env ℕ (Connection Outside) ℕ Outside
misspelt = record {
  config = config "s4";
  db = 3;
  session_backend = some (redis_backend (record { expiration = 3600; client = client }));
  telegram = 1;
  rabbit_mq = connection;
  blob = none;
}

setup_test : (setup (libraries "s4") []).0 ≡ ok misspelt
unfolding setup new_from_env provide_storage_for provide_session_backend_for setup_amqp
    setup_telegram new_redis
setup_test = refl

-- A run that ends so; what is closed and cancelled is written down.
abbrev ending_in : Result (Unit {0}) → Rest ℕ ℕ Outside
ending_in result = record {
  print = λ t s. s;
  listen_and_serve = λ addr. pure tt;
  repository = λ db. new_video.metadata_db;
  client = new_video.youtube_client;
  run = λ d t cfg s. (result, ("run", d.opts.bucket) ∷ s);
  close = λ c s. ("closed", "") ∷ s;
  cancel = λ s. ("cancelled", "") ∷ s;
}

abbrev calm : Races
calm = record { at_new_dispatcher = none; at_run = none }

returned_test : (main (assembly (libraries "s4") (ending_in (ok tt))) calm []).0 ≡ returned
unfolding main assembly setup new_from_env provide_storage_for provide_session_backend_for
    setup_amqp setup_telegram new_redis new_dispatcher banner
returned_test = refl

main-returned_example :
    let lib = libraries "s4" in
    let rest = ending_in (ok tt) in
    let r = setup lib (banner (assembly lib rest) []) in
    (env : Env ℕ (Connection Outside) ℕ Outside) × (d : Dispatcher ℕ ℕ Outside) × (r.0 ≡ ok env)
    × Runs lib rest env d
    × ((rest.run d env.telegram env.config r.1).0 ≡ ok tt)
    × ((main (assembly lib rest) calm []).1
        ≡ rest.cancel (rest.close env.rabbit_mq (rest.run d env.telegram env.config r.1).1))
main-returned_example = main-returned (libraries "s4") (ending_in (ok tt)) calm [] returned_test

abbrev reported : String
reported = "bot dispatcher"

-- The HTTP server fails right behind `NewDispatcher`, which has not.
raced_test :
    (main
      (assembly (libraries "s4") (ending_in (ok tt)))
      (record { at_new_dispatcher = some lost; at_run = none })
      []).0
    ≡ fatal "new telegram dispatcher" lost
unfolding main assembly setup new_from_env provide_storage_for provide_session_backend_for
    setup_amqp setup_telegram new_redis new_dispatcher banner
raced_test = refl

abbrev telegram : TelegramApi ℕ Outside
telegram = record {
  set_webhook = λ url. pure tt;
  get_webhook_info = pure tt;
  listen_for_webhook = λ path. pure 5;
  serve = λ addr. pure tt;
  listen_and_serve = λ addr. fail (message "address already in use");
  remove_webhook = pure (record { ok = true; result = ""; error_code = pos 0; description = "" });
  get_updates_chan = λ offset timeout. pure 6;
}

-- The configuration above has no webhook.
updates_test :
    (setup_telegram_mode telegram (options_of (config "fs")) (config "fs").telegram []).0 ≡ ok 6
unfolding setup_telegram_mode options_of
updates_test = refl

webhook_test :
    (serve_webhook telegram (config "fs").telegram []).0 ≡ panic "Listen and serve http stopped"
unfolding serve_webhook
webhook_test = refl
