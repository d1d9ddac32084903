-- ===== src/Bot/Dispatcher.antt =====
-- internal/bot/server.go: the dispatcher and `NewDispatcher`; internal/bot/amqp.go: its broker.
use cribe.Prelude.{ℕ, String, Option, List, [], ◌∷◌}
use cribe.Errors.{Error}
use cribe.Exec.{Exec, pure}
use cribe.Bytes.{Bytes}
use cribe.Storage.{Blob}
use cribe.Db.{MetadataDb}
use cribe.Srvenv.{Env}
use cribe.Bot.Services.{YoutubeClient, AmqpConnection}
use cribe.Bot.World.{Job}
use cribe.Bot.Updates.{Options, options_of}

-- What the broker calls of the connection: `Channel`, and of the channel that it gives.
pub record Connection (S : Type 0) : Type 0 where
  pub channel : Exec S ℕ
  pub publish : ℕ → String → Bytes → Exec S (Unit {0})
  pub queue_declare : ℕ → String → Exec S (Unit {0})
  pub consume : ℕ → String → Exec S (List Bytes)
  pub close_channel : ℕ → S → Option Error × S

-- NewAMQPBroker, with the method `Chan`
unfoldable pub new_amqp_broker : {S : Type 0} → Connection S → AmqpConnection S
new_amqp_broker connection = record {
  chan = connection.channel;
  publish = connection.publish;
  queue_declare = connection.queue_declare;
  consume = connection.consume;
  close = connection.close_channel;
}

-- struct Dispatcher; a storage that was not set up is nil, `none`. `T` and `D` are the types of the
-- Telegram client and of the database's pool.
pub record Dispatcher (T D S : Type 0) : Type 0 where
  pub env : Env T (Connection S) D S
  pub opts : Options
  pub metadata_db : MetadataDb S
  pub youtube_client : YoutubeClient S
  pub broker : AmqpConnection S
  pub storage : Option (Blob S)
  pub jobs : List Job

module _ {T D S : Type 0} where
  -- for _, o := range opts { o(&d) }
  abbrev applied : List (Dispatcher T D S → Dispatcher T D S) → Dispatcher T D S → Dispatcher T D S
  applied [] d = d
  applied (o ∷ opts) d = applied opts (o d)

  -- `repository` is `db.NewMetadataRepository`, and `client` the zero `youtube.Client`. The error that
  -- `NewDispatcher` returns is always nil.
  unfoldable pub new_dispatcher :
      (D → MetadataDb S)
      → YoutubeClient S
      → Env T (Connection S) D S
      → List (Dispatcher T D S → Dispatcher T D S)
      → Exec S (Dispatcher T D S)
  unfolding options_of new_amqp_broker
  new_dispatcher repository client env opts = pure (
      applied opts (record {
        env = env;
        opts = options_of env.config;
        metadata_db = repository env.db;
        youtube_client = client;
        broker = new_amqp_broker env.rabbit_mq;
        storage = env.blob;
        jobs = [];
      }))
