-- ===== src/Tests/Kafka.antt =====
-- A partition with an order, a message without a key, and the order once more.
use txbox.Common.{
  ℕ, zero, suc, ◌≡◌, ◌≢◌, ◌<◌, refl, ap, sym, subst, true, Option, none, some, List, [], ◌∷◌,
  get_elem?, length, contains, nat_eq, false, arith,
}
use txbox.Consumer.{process, on_claim, settle, claim}
use txbox.Io.{Io, ret, stop}
use txbox.Io.Triple.{Gives}
use txbox.KafkaConsumer.{StreamConsumer, orders_billing, message_id, turns, turn, on_id}
use txbox.KafkaConsumer.Broker.{Broker}
use txbox.KafkaConsumer.Lives.{lives, lives-SafeWorld}
use txbox.KafkaConsumer.Settles.{BrokerReturns, turns-Settled}
use txbox.KafkaConsumer.Turns.{Settled, SafeWorld}
use txbox.KafkaConsumer.Orders.{
  InsertsOrder, orders_consumer, insert_order-HandlerContract, insert_order-Returns,
}
use txbox.Memory.{WorldOf, memory_of}
use txbox.Memory.Laws.{transactions_of, postgres_of}
use txbox.Memory.Returns.{memory_of-ReliableDriver}
use txbox.Consumer.{Consumer}
use txbox.Consumer.Process.{HandlerContract}
use txbox.KafkaConsumer.{insert_order}
use txbox.KafkaConsumer.Ledger.{StoresOrder}
use txbox.Postgres
use txbox.Postgres.Refines.{pg_contract}
use txbox.Postgres.Reliable.{pg-Reliable}
use txbox.Sql.{claim_of_affected}
use txbox.Sqlx.{Driver}
use txbox.Store.Contract.{Contract, Db}
use txbox.Result.{Result, ok}
use txbox.Str.{Str, str, is_whitespace, trim, len, bytes, utf8}
use txbox.Types.{check_id, claim_request, message_id_try_from, consumer_id_try_from}

record Message : Type 0 where
  offset : ℕ
  key : Option (Result ℕ Str)
  payload : Option (List ℕ)

abbrev log : List Message
log =
    record { offset = 0; key = some (ok (str "order 17")); payload = some (7 ∷ []) }
    ∷ record { offset = 1; key = none; payload = none }
    ∷ record { offset = 2; key = some (ok (str "order 17")); payload = some (7 ∷ []) }
    ∷ []

-- The position, the offset asked for last, and those before it.
record Kafka : Type 0 where
  position : ℕ
  asked : ℕ
  earlier : List ℕ

abbrev read : Option Message → Io Kafka ℕ Message
read none w = (stop, w)
read (some m) w = (ret m, record w { position = suc w.position })

abbrev kafka : StreamConsumer Kafka ℕ
kafka = record {
  Message = Message;
  key_view = λ m. m.key;
  payload = λ m. m.payload;
  recv = λ w. read (get_elem? log w.position) w;
  commit_message =
      λ m w. (ret tt, record w { asked = suc m.offset; earlier = w.asked ∷ w.earlier });
}

offset_is : (i : ℕ) (m : Message) → get_elem? log i ≡ some m → m.offset ≡ i
offset_is zero m e = ground (arith, e)
offset_is (suc zero) m e = ground (arith, e)
offset_is (suc (suc zero)) m e = ground (arith, e)
offset_is (suc (suc (suc i))) m e = ground (arith, e)

read_gives :
    (o : Option Message) (p : ℕ) (rs : List ℕ) (w : Kafka)
    → get_elem? log p ≡ o
    → w.position ≡ p
    → w.asked ∷ w.earlier ≡ rs
    → Gives w
        (read o)
        (λ m w'. (get_elem? log p ≡ some m) × (w'.position ≡ suc p) × (w'.asked ∷ w'.earlier ≡ rs))
        (λ _ w'. w'.asked ∷ w'.earlier ≡ rs)
read_gives none p rs w e q r = r
read_gives (some m) p rs w e q r = (e, ap suc q, r)

asked_first : (x : ℕ) (xs : List ℕ) → contains (x ∷ xs) x ≡ true
asked_first x xs = ground arith

abbrev broker : Broker kafka log
broker = record {
  position = λ w. w.position;
  resumes = λ w. w.asked ∷ w.earlier;
  offset = λ m. m.offset;
  offset_lem = offset_is;
  recv_lem = λ p rs. record {
    at = λ w h. read_gives (get_elem? log w.position) p rs w (ap (get_elem? log) (sym h.0)) h.0 h.1;
  };
  commit_lem = λ m p rs. record { at = λ w h. (h.0, ap (λ xs. suc m.offset ∷ xs) h.1) };
  restart = λ w. record w { position = w.asked };
  restart_lem = λ w. asked_first w.asked w.earlier;
  restart-resumes = λ w. refl;
}

read_returns :
    (o : Option Message) (w : Kafka) → o ≢ none → Gives w (read o) (λ _ _. Unit {0}) (λ _ _. ⊥)
read_returns none w e = e refl
read_returns (some m) w e = tt

has_message : (p : ℕ) → p < length log → get_elem? log p ≢ none
has_message zero lt e = ground (arith, e)
has_message (suc zero) lt e = ground (arith, e)
has_message (suc (suc zero)) lt e = ground (arith, e)
has_message (suc (suc (suc p))) lt e = omega (arith, lt)

broker_returns : BrokerReturns kafka log broker ⊥
broker_returns = record {
  recv_lem = λ p lt. record {
    at = λ w h.
        read_returns (get_elem? log w.position) w
          (subst (λ x. get_elem? log x ≢ none) (sym h) (has_message p lt));
  };
  commit_lem = λ m. record { at = λ w h. tt };
}

-- PostgreSQL in memory, whose application has the table of orders.
abbrev Orders : Type 0
Orders = List (List ℕ)

abbrev new_order : List ℕ → Orders → Orders
new_order payload os = payload ∷ os

abbrev database : Driver (WorldOf Orders) ℕ
database = memory_of new_order

abbrev orders : Consumer (WorldOf Orders) ℕ
orders = orders_consumer database 10

abbrev contract : Contract orders.store Orders
contract = pg_contract database (transactions_of new_order) (postgres_of new_order) 10

abbrev orders_in : Orders → List (List ℕ)
orders_in os = os

inserts_order : InsertsOrder database (transactions_of new_order) orders_in
inserts_order = record {
  insert_lem = λ conn payload d v. record {
    at = λ w h. (h.0, ap (λ x. x.row) h.1, ap (λ x. payload ∷ x.app) h.1);
  };
}

handler_keeps :
    (payload : List ℕ)
    → HandlerContract orders contract
        (insert_order database payload)
        (StoresOrder orders_in payload)
handler_keeps =
    insert_order-HandlerContract database (transactions_of new_order) (postgres_of new_order) 10
      orders_in inserts_order

abbrev nothing : Db Orders
nothing = record { row = λ c m. false; app = [] }

abbrev fresh_start : WorldOf Orders × Kafka
fresh_start = (
  record {
    committed = nothing;
    seen = nothing;
    marked = none;
    stale = 0;
    timeout = 50;
    saved = none;
    stamps = [];
  },
  record { position = 0; asked = 0; earlier = [] },
)

fresh_start-SafeWorld : SafeWorld orders contract kafka log broker orders_in fresh_start
fresh_start-SafeWorld = (
  record { done = []; from_log = tt; distinct = tt; recorded = λ id. refl; stored = refl },
  (λ i lt m e. absurd (omega (arith, lt)), tt),
)

-- Two lives: the first ends after two messages, the second meets the order again.
one_order :
    (lives orders kafka log broker (insert_order database) (2 ∷ 3 ∷ []) fresh_start).0.committed.app
    ≡ (7 ∷ []) ∷ []
unfolding lives turns turn on_id message_id process on_claim settle claim claim_request check_id
    message_id_try_from is_whitespace len bytes utf8 trim insert_order Postgres.claim
    Postgres.set_lock_timeout claim_of_affected
one_order = refl

lives-SafeWorld_example :
    SafeWorld orders contract kafka log broker orders_in
      (lives orders kafka log broker (insert_order database) (2 ∷ 3 ∷ []) fresh_start)
lives-SafeWorld_example =
    lives-SafeWorld orders contract kafka log broker orders_in (insert_order database) handler_keeps
      (2 ∷ 3 ∷ []) fresh_start fresh_start-SafeWorld

turns-Settled_example :
    Gives fresh_start
      (turns kafka orders (insert_order database) 3)
      (λ _ w'.
        SafeWorld orders contract kafka log broker orders_in w'
        × ((i : ℕ) (m : Message)
            → i < 3
            → get_elem? log i ≡ some m
            → Settled kafka log orders.id w'.0.committed m))
      (λ _ w'. SafeWorld orders contract kafka log broker orders_in w' × ⊥)
turns-Settled_example =
    turns-Settled orders kafka log broker (insert_order database) ⊥
      (pg-Reliable database ⊥ (memory_of-ReliableDriver new_order) 10) broker_returns
      (insert_order-Returns database ⊥ (λ conn payload. record { at = λ w h. tt })) contract
      orders_in handler_keeps 3 fresh_start fresh_start-SafeWorld (omega arith)

orders_billing_accepted : consumer_id_try_from (str "orders-billing") ≡ ok orders_billing
unfolding consumer_id_try_from check_id is_whitespace len bytes utf8 trim
orders_billing_accepted = refl
