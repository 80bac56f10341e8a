-- ===== src/KafkaConsumer/Orders.antt =====
-- The handler of examples/kafka_consumer.rs over PostgreSQL.
use txbox.Common.{ℕ, ◌≡◌, List, [], ◌∷◌}
use txbox.Consumer.{Consumer, consumer}
use txbox.Consumer.Process.{HandlerContract}
use txbox.Error.{BoxError}
use txbox.Io.Triple.{Triple, Triple-pure, Triple-bind, Triple-map_err}
use txbox.KafkaConsumer.{orders_billing, insert_order}
use txbox.KafkaConsumer.Ledger.{StoresOrder}
use txbox.Postgres.{pg_inbox}
use txbox.Postgres.Refines.{PgStatements, pg_contract}
use txbox.Sql.Laws.{Transactions}
use txbox.Sqlx.{Bind, Driver}
use txbox.Store.Contract.{Db}
use txbox.Store.Reliable.{Returns}

-- The statement of the handler, as PostgreSQL documents it: one row more in the table.
pub record InsertsOrder {W E App : Type 0} (q : Driver W E) (t : Transactions q q.begin App)
    (orders : App → List (List ℕ)) : Type 0 where
  pub insert_lem :
      (conn : q.Conn) (payload : List ℕ) (d v : Db App)
      → Triple
          (λ w. (t.committed w ≡ d) × (t.seen conn w ≡ v))
          (q.execute conn "INSERT INTO orders (payload) VALUES ($1)" (Bind.bytes payload ∷ []))
          (λ _ w.
            (t.committed w ≡ d)
            × ((t.seen conn w).row ≡ v.row)
            × (orders (t.seen conn w).app ≡ payload ∷ orders v.app))
          (λ _ w. t.committed w ≡ d)

-- The consumer of the example.
abbrev pub orders_consumer : {W E : Type 0} → Driver W E → ℕ → Consumer W E
orders_consumer q rounds = consumer (pg_inbox q rounds) orders_billing

module _ {W E App : Type 0} (q : Driver W E) (t : Transactions q q.begin App) (s : PgStatements q t)
    (rounds : ℕ) (orders : App → List (List ℕ)) (table : InsertsOrder q t orders) where
  -- The handler inserts one order, and leaves the rows of the inbox alone.
  pub insert_order-HandlerContract :
      (payload : List ℕ)
      → HandlerContract
          (orders_consumer q rounds)
          (pg_contract q t s rounds)
          (insert_order q payload)
          (StoresOrder orders payload)
  unfolding insert_order
  insert_order-HandlerContract payload = record {
    run_lem = λ conn d v.
        Triple-bind
          (Triple-map_err BoxError.foreign (table.insert_lem conn payload d v) (λ e w h. h)
            (λ w h. h))
          (λ _. Triple-pure tt (λ w h. (h.0, (h.1, h.2))));
  }

module _ {W E : Type 0} (q : Driver W E) (Faulty : Type 0)
    (f : (conn : q.Conn) (payload : List ℕ)
      → Returns Faulty (
          q.execute conn "INSERT INTO orders (payload) VALUES ($1)"
            (Bind.bytes payload ∷ []))) where
  -- The handler returns where the statement does.
  pub insert_order-Returns :
      (payload : List ℕ) (conn : q.Conn) → Returns Faulty (insert_order q payload conn)
  unfolding insert_order
  insert_order-Returns payload conn =
      Triple-bind (Triple-map_err BoxError.foreign (f conn payload) (λ e w h. h) (λ w h. h))
        (λ _. Triple-pure tt (λ w h. h))
