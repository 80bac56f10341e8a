-- ===== src/KafkaConsumer.antt =====
-- examples/kafka_consumer.rs: a Kafka consumer whose handler runs once for each key. Its logging is
-- left out.
pub mod Ledger
pub mod Broker
pub mod Worlds
pub mod Turns
pub mod Lives
pub mod Settles
pub mod Orders
use Prim.Native.String.{String}
use txbox.Common.{ℕ, zero, suc, ◌*◌, Option, none, some, List, [], ◌∷◌}
use txbox.Consumer.{Consumer, consumer, process}
use txbox.Error.{BoxError, HandlerError, InboxError}
use txbox.Io.{Io, pure, lift, attempt, map_err, ◌>>=◌, ◌>>◌}
use txbox.Postgres.{pg_inbox, migrate}
use txbox.Result.{Result, ok, err, some_ok}
use txbox.Retention.{RetentionPolicy, retention_policy}
use txbox.Sqlx.{Bind, Driver}
use txbox.Store.{InboxStore}
use txbox.Str.{Str, str}
use txbox.Types.{ConsumerId, Duration, MessageId, message_id_try_from, consumer_id_try_from}

-- rdkafka's `StreamConsumer` and its messages, as the example calls them; `E` are its errors.
pub record StreamConsumer (K E : Type 0) : Type 1 where
  pub Message : Type 0
  -- `key_view::<str>()`
  pub key_view : Message → Option (Result E Str)
  pub payload : Message → Option (List ℕ)
  pub recv : Io K E Message
  -- with `CommitMode::Async`
  pub commit_message : Message → Io K E (Unit {0})

-- The database and Kafka are two worlds side by side.
module _ {D K E A : Type 0} where
  abbrev pub on_db : Io D E A → Io (D × K) E A
  on_db m w = let (r, d) = m w.0 in (r, (d, w.1))

  abbrev pub on_kafka : Io K E A → Io (D × K) E A
  on_kafka m w = let (r, k) = m w.1 in (r, (w.0, k))

abbrev pub unwrap_or_default : Option (List ℕ) → List ℕ
unwrap_or_default none = []
unwrap_or_default (some bytes) = bytes

-- The `match` on the key.
abbrev pub id_of_key : {E : Type 0} → Option (Result E Str) → Option MessageId
id_of_key (some (ok key)) = some_ok (message_id_try_from key)
id_of_key (some (err e)) = none
id_of_key none = none

-- "orders-billing"
abbrev pub orders_billing : ConsumerId
orders_billing = record { as_str = str "orders-billing" }

-- 7 * 24 * 60 * 60 seconds
unfoldable pub purge_policy : RetentionPolicy
purge_policy = retention_policy (604800 * 1000000000)

module _ {K E : Type 0} (kafka : StreamConsumer K E) where
  unfoldable pub message_id : kafka.Message → Option MessageId
  message_id message = id_of_key (kafka.key_view message)

  abbrev pub payload_of : kafka.Message → List ℕ
  payload_of message = unwrap_or_default (kafka.payload message)

module _ {D K E : Type 0} (kafka : StreamConsumer K E) where
  abbrev pub commit_message : kafka.Message → Io (D × K) (BoxError E) (Unit {0})
  commit_message message = on_kafka (map_err BoxError.foreign (kafka.commit_message message))

  module _ (orders : Consumer D E)
      (store_order : List ℕ → orders.store.Conn → Io D (HandlerError E) (Unit {0})) where
    -- The rest of the loop's body, for the id that the key gave.
    unfoldable pub on_id : Option MessageId → kafka.Message → Io (D × K) (BoxError E) (Unit {0})
    on_id none message = commit_message message
    on_id (some id) message = do
      on_db (map_err BoxError.inbox (process orders id (store_order (payload_of kafka message))))
      commit_message message

    -- One turn of the loop.
    unfoldable pub turn : Io (D × K) (BoxError E) (Unit {0})
    unfolding on_id message_id
    turn = do
      message ← on_kafka (map_err BoxError.foreign kafka.recv)
      on_id (message_id kafka message) message

    -- The first `n` turns of the loop, which an error ends.
    unfoldable pub turns : ℕ → Io (D × K) (BoxError E) (Unit {0})
    unfolding turn
    turns zero = pure tt
    turns (suc n) = do turn; turns n

-- What `main` asks of the environment, sqlx and rdkafka before the loop.
pub record Setup (D K E : Type 0) : Type 0 where
  -- `std::env::var("DATABASE_URL")`
  pub database_url : Result E Str
  -- `PgPoolOptions::new().max_connections(n).connect(url)`
  pub connect : ℕ → Str → Io D E (Unit {0})
  -- `ClientConfig` with these settings, `create()`
  pub create : List (Str × Str) → Io K E (Unit {0})
  pub subscribe : List Str → Io K E (Unit {0})

abbrev pub config : List (Str × Str)
config =
    (str "bootstrap.servers", str "localhost:9092")
    ∷ (str "group.id", str "orders-billing")
    ∷ (str "enable.auto.commit", str "false")
    ∷ []

module _ {D E : Type 0} (q : Driver D E) where
  -- The handler
  unfoldable pub insert_order : List ℕ → q.Conn → Io D (HandlerError E) (Unit {0})
  insert_order payload conn =
      map_err BoxError.foreign
        (q.execute conn "INSERT INTO orders (payload) VALUES ($1)" (Bind.bytes payload ∷ []))
      >>= λ _. pure tt

  -- `main`, up to the loop; its first `n` turns stand for the loop. `rounds` bounds those of a purge.
  pub main :
      {K : Type 0}
      → Setup D K E
      → StreamConsumer K E
      → (rounds : ℕ) → ℕ
      → Io (D × K) (BoxError E) (Unit {0})
  unfolding turns insert_order migrate
  main env kafka rounds n = do
    url ← map_err BoxError.foreign (lift env.database_url)
    on_db (map_err BoxError.foreign (env.connect 8 url))
    on_db (map_err BoxError.inbox (migrate q))
    id ← map_err BoxError.rejected (lift (consumer_id_try_from (str "orders-billing")))
    on_kafka (map_err BoxError.foreign (env.create config))
    on_kafka (map_err BoxError.foreign (env.subscribe (str "orders.created" ∷ [])))
    turns kafka (consumer (pg_inbox q rounds) id) insert_order n

-- The task beside the loop: a purge at each tick, whose failure is logged.
module _ {D E : Type 0} (inbox : InboxStore D E) where
  unfoldable pub purge_ticks : ℕ → Io D (InboxError E) (Unit {0})
  unfolding purge_policy
  purge_ticks zero = pure tt
  purge_ticks (suc n) = do attempt {F = InboxError E} (inbox.purge purge_policy); purge_ticks n
