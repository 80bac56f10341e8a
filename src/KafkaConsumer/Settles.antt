-- ===== src/KafkaConsumer/Settles.antt =====
-- The consumer of examples/kafka_consumer.rs deals with every message: an unusable key does not hold
-- up those behind it.
use txbox.Common.{
  ℕ, zero, suc, ◌+◌, ◌≡◌, ◌<◌, subst, List, Option, none, some, length, get_elem?, arith,
}
use txbox.Consumer.{Consumer}
use txbox.Consumer.Process.{HandlerContract}
use txbox.Consumer.Returns.{process-Returns}
use txbox.Error.{BoxError, HandlerError}
use txbox.Io.{Io}
use txbox.Io.Triple.{
  Triple, Gives, Triple-pure, Triple-mono, Triple-bind, Triple-and, Triple-map_err,
}
use txbox.KafkaConsumer.{StreamConsumer, message_id, payload_of, commit_message, on_id, turn, turns}
use txbox.KafkaConsumer.Broker.{Broker}
use txbox.KafkaConsumer.Ledger.{StoresOrder}
use txbox.KafkaConsumer.Lives.{restarted}
use txbox.KafkaConsumer.Turns.{Settled, SafeWorld, At, turn_triple}
use txbox.KafkaConsumer.Worlds.{Triple-on_db, Triple-on_kafka}
use txbox.Store.Contract.{Contract}
use txbox.Store.Reliable.{Returns, Reliable}
use txbox.Types.{MessageId}

-- A broker whose calls return, unless `Faulty`; `recv` as long as there are messages.
pub record BrokerReturns {K E : Type 0} (kafka : StreamConsumer K E) (log : List kafka.Message)
    (b : Broker kafka log) (Faulty : Type 0) : Type 0 where
  pub recv_lem :
      (p : ℕ)
      → p < length log
      → Triple (λ w. b.position w ≡ p) kafka.recv (λ _ _. Unit {0}) (λ _ _. Faulty)
  pub commit_lem : (m : kafka.Message) → Returns Faulty (kafka.commit_message m)

module _ {D K E : Type 0} (c : Consumer D E) (kafka : StreamConsumer K E) (log : List kafka.Message)
    (b : Broker kafka log) (store_order : List ℕ → c.store.Conn → Io D (HandlerError E) (Unit {0}))
    (Faulty : Type 0) (f : Reliable c.store Faulty) (g : BrokerReturns kafka log b Faulty)
    (h : (payload : List ℕ) (conn : c.store.Conn) → Returns Faulty (store_order payload conn)) where
  commit-Returns : (m : kafka.Message) → Returns {W = D × K} Faulty (commit_message kafka m)
  commit-Returns m =
      Triple-mono
        (Triple-on_kafka {R = λ _ _. Faulty} (λ _. Unit {0})
          (Triple-map_err BoxError.foreign (g.commit_lem m) (λ e w p. p) (λ w p. p)))
        (λ w p. (tt, tt)) (λ a w p. tt) (λ x w p. p.1)

  on_id-Returns :
      (x : Option MessageId) (m : kafka.Message)
      → Returns {W = D × K} Faulty (on_id kafka c store_order x m)
  unfolding on_id
  on_id-Returns none m = commit-Returns m
  on_id-Returns (some id) m =
      Triple-bind {Q = λ _ _. Unit {0}}
        (Triple-mono
          (Triple-on_db {R = λ _ _. Faulty} (λ _. Unit {0})
            (Triple-map_err BoxError.inbox
              (process-Returns c Faulty f id (store_order (payload_of kafka m))
                (h (payload_of kafka m)))
              (λ e w p. p) (λ w p. p)))
          (λ w p. (tt, tt)) (λ a w p. tt) (λ x w p. p.0))
        (λ o. commit-Returns m)

  turn-Returns :
      (p : ℕ)
      → p < length log
      → Triple
          (λ (w : D × K). b.position w.1 ≡ p)
          (turn kafka c store_order)
          (λ _ _. Unit {0})
          (λ _ _. Faulty)
  unfolding turn
  turn-Returns p lt =
      Triple-bind {Q = λ _ _. Unit {0}}
        (Triple-mono
          (Triple-on_kafka {R = λ _ _. Faulty} (λ _. Unit {0})
            (Triple-map_err BoxError.foreign (g.recv_lem p lt) (λ e w q. q) (λ w q. q)))
          (λ w q. (tt, q)) (λ a w q. tt) (λ x w q. q.1))
        (λ m. on_id-Returns (message_id kafka m) m)

  module _ {App : Type 0} (k : Contract c.store App) (orders : App → List (List ℕ))
      (hk : (payload : List ℕ)
        → HandlerContract c k (store_order payload) (StoresOrder orders payload)) where
    turns_settle :
        (n p : ℕ)
        → p + n ≡ length log
        → Triple
            (At c k kafka log b orders p)
            (turns kafka c store_order n)
            (λ _ w. At c k kafka log b orders (length log) w)
            (λ _ w. SafeWorld c k kafka log b orders w × Faulty)
    unfolding turns
    turns_settle zero p e =
        Triple-pure tt (λ w q. subst (λ x. At c k kafka log b orders x w) (omega (arith, e)) q)
    turns_settle (suc n) p e =
        Triple-bind
          (Triple-mono
            (Triple-and (turn_triple c k kafka log b orders store_order hk p) (
              Triple-mono (turn-Returns p (omega (arith, e))) (λ w q. q.2) (λ a w q. q)
                (λ x w q. q)))
            (λ w q. q) (λ a w q. q.0) (λ x w q. q))
          (λ _. turns_settle n (suc p) (omega (arith, e)))

    -- Over a database and a broker that keep their contracts and whose calls all return, and a
    -- handler that keeps its own and returns: a consumer that is started anew returns from as many
    -- turns as there are messages past the offset that it resumes from, and then every message of
    -- the partition is recorded or has no usable key, and there is one order for each recorded one;
    -- or a call failed or stopped (`Faulty`).
    pub turns-Settled :
        (n : ℕ) (w : D × K)
        → SafeWorld c k kafka log b orders w
        → b.position (b.restart w.1) + n ≡ length log
        → Gives
            (w.0, b.restart w.1)
            (turns kafka c store_order n)
            (λ _ w'.
              SafeWorld c k kafka log b orders w'
              × ((i : ℕ) (m : kafka.Message)
                  → i < length log
                  → get_elem? log i ≡ some m
                  → Settled kafka log c.id (k.committed w'.0) m))
            (λ _ w'. SafeWorld c k kafka log b orders w' × Faulty)
    turns-Settled n w s e =
        (Triple-mono (turns_settle n (b.position (b.restart w.1)) e) (λ w q. q)
            (λ a w q. (q.0, λ i m lt there. q.1 i lt m there)) (λ x w q. q)).at
          (w.0, b.restart w.1) (restarted c k kafka log b orders store_order hk w s)
