-- ===== src/Entry/Assembly.antt =====
-- cmd/cribe-bot/main.go with what it calls of the program: `srvenv.Setup` and `bot.NewDispatcher`.
use cribe.Prelude.{String, [], ◌≡◌, inl, inr, ◌==◌, ◌||◌, refl, arith}
use cribe.Exec.{ok, Exec, Result-cases}
use cribe.Db.{MetadataDb}
use cribe.Srvenv.{Config, Libraries, Env, setup}
use cribe.Srvenv.Choice.{is_set, setup-is_set}
use cribe.Bot.Services.{YoutubeClient}
use cribe.Bot.Updates.{options_of}
use cribe.Bot.Dispatcher.{Connection, Dispatcher, new_amqp_broker, new_dispatcher}
use cribe.Entry.{Races, Parts, returned, banner, main}

-- What is not of `srvenv` and `bot.NewDispatcher`: the printing, `http.ListenAndServe`, `Run`, the
-- connection's `Close` and the context's `cancel`, and for `NewDispatcher` the repository of a pool and
-- the client of YouTube.
pub record Rest (T D S : Type 0) : Type 0 where
  pub print : String → S → S
  pub listen_and_serve : String → Exec S (Unit {0})
  pub repository : D → MetadataDb S
  pub client : YoutubeClient S
  pub run : Dispatcher T D S → T → Config → Exec S (Unit {0})
  pub close : Connection S → S → S
  pub cancel : S → S

module _ {T P D H S : Type 0} (lib : Libraries T (Connection S) P D H S) (rest : Rest T D S) where
  unfoldable pub assembly : Parts (Env T (Connection S) D S) (Dispatcher T D S) S
  unfolding setup new_dispatcher
  assembly = record {
    print = rest.print;
    setup = setup lib;
    listen_and_serve = λ env. rest.listen_and_serve env.config.addr;
    new_dispatcher = λ env. new_dispatcher rest.repository rest.client env [];
    run = λ dispatcher env. rest.run dispatcher env.telegram env.config;
    close = λ env. rest.close env.rabbit_mq;
    cancel = rest.cancel;
  }

  -- The dispatcher that runs in an environment.
  abbrev pub Runs : Env T (Connection S) D S → Dispatcher T D S → Type 0
  Runs env d =
      (d.opts ≡ options_of env.config)
      × (d.storage ≡ env.blob)
      × (d.jobs ≡ [])
      × (d.broker ≡ new_amqp_broker env.rabbit_mq)
      × (is_set d.storage
          ≡ (env.config.storage.type_name == "fs" || env.config.storage.type_name == "s3"))

  abbrev dispatcher_of : Env T (Connection S) D S → Dispatcher T D S
  dispatcher_of env = record {
    env = env;
    opts = options_of env.config;
    metadata_db = rest.repository env.db;
    youtube_client = rest.client;
    broker = new_amqp_broker env.rabbit_mq;
    storage = env.blob;
    jobs = [];
  }

  dispatcher_of-Runs :
      (env : Env T (Connection S) D S) (s : S)
      → (setup lib s).0 ≡ ok env
      → Runs env (dispatcher_of env)
  dispatcher_of-Runs env s h = (refl, refl, refl, refl, (setup-is_set lib s env h).0)

  -- A program that ends by returning has run the dispatcher of the environment that `Setup` gave, whose
  -- storage is set exactly if the configured type is "fs" or "s3" (another name stops nothing), and
  -- with no error; behind the run it has closed the connection and then cancelled the context.
  pub main-returned :
      (races : Races) (s : S)
      → (main assembly races s).0 ≡ returned
      → let r = setup lib (banner assembly s) in
        (env : Env T (Connection S) D S) × (d : Dispatcher T D S) × (r.0 ≡ ok env)
        × Runs env d
        × ((rest.run d env.telegram env.config r.1).0 ≡ ok tt)
        × ((main assembly races s).1
            ≡ rest.cancel (rest.close env.rabbit_mq (rest.run d env.telegram env.config r.1).1))
  unfolding main assembly new_dispatcher banner
  main-returned races s h =
      let r = setup lib (banner assembly s) in
      elim (Result-cases r.0) [
        | inl (env, g) ↦
            let d = dispatcher_of env in
            (
              env,
              d,
              g,
              dispatcher_of-Runs env (banner assembly s) g,
              grind (arith, Result-cases (rest.run d env.telegram env.config r.1).0),
              grind (arith, Result-cases (rest.run d env.telegram env.config r.1).0),
            )
        | inr (inl (e, g)) ↦ absurd (ground arith)
        | inr (inr (p, g)) ↦ absurd (ground arith)
      ]
