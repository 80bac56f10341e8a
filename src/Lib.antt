-- ===== src/Lib.antt =====
-- txbox: a transactional inbox. A consumer records the id of a message in the same database
-- transaction as the effect of its handler, so that a message delivered again is recognised.
--
-- The program's parts, and the files that model them:
--   Common, Result, Io, Str     what the code uses of Rust: lists, maps as association lists, `Result`,
--                               async actions on a world, and `str` with `trim`, `len` and `cmp`.
--   Types, Error, Retention     src/types.rs, src/error.rs, src/retention.rs: ids and their validation,
--                               requests, answers, errors and the retention policy.
--   Store                       src/store.rs: `InboxStore` and `Savepoints` as records of operations,
--                               with the default methods. Store.Contract states what their
--                               documentation asks of a backend, Store.Reliable when its calls return.
--   Consumer                    src/consumer.rs: `claim`, `claim_many`, `process` over any backend;
--                               Consumer.Many is `process_many`, and Consumer.Many.Runs tells what a
--                               batch does, over the contents alone; Consumer.Singly compares it with
--                               one `process` for each message; Consumer.Steps cuts `process` at its
--                               awaits.
--   Sessions                    many calls of `process` at once, as a sequence of events: awaits that
--                               end, futures that are dropped, deliveries. Sessions.View states what
--                               the documentation asks of transactions side by side. Sessions.Batches
--                               is a step relation for the row locks of batches, in the order in which
--                               `claim_many` has them claimed (Consumer.Taken).
--   KafkaConsumer               examples/kafka_consumer.rs: `main`, with rdkafka as a parameter;
--                               KafkaConsumer.Broker states what Kafka documents of a partition, and
--                               KafkaConsumer.Lives runs the consumer through failures and restarts.
--   Sqlx, Sql                   sqlx with the database behind it, as a parameter; src/sql.rs and the
--                               loop of `purge`.
--   Sqlite, Postgres, Mysql     src/sqlite.rs, src/postgres.rs, src/mysql.rs: the backends. Their Refines
--                               fill the contracts, from laws that say what each statement does;
--                               their Reliable say that they return where sqlx does.
--   Testing                     src/testing.rs: the conformance suites, check by check, whose failed
--                               `expect`s and assertions are panics; Testing.Suite and
--                               Testing.Savepoints compose what the checks do over a backend that keeps
--                               its contract, Testing.Repeats repeats them,
--                               Testing.Backends runs them over each backend.
--   Memory, Tests               a database in memory that has those laws, runs at concrete inputs, and
--                               each theorem applied to it.
--
-- How the parts interact: a consumer holds a store and calls its operations in the order of the
-- source; a backend fills the store with calls of sqlx. An action takes a world (databases, pools and
-- what closures capture) to a result and a world: it returns, it fails with an error, or it stops, by
-- a panic or a future that is dropped at an await; a transaction that is open where an action leaves
-- early is dropped. The world's contents are those that are committed and those that a connection sees
-- inside its transaction (`Db`): the rows of the inbox and the application's own data.
--
-- Bounds and fuel: durations are nanoseconds, in ℕ; `total` of `purge` is a `u64` and wraps as one,
-- which a build with overflow checks turns into a panic. The loop of `purge` has no bound in the
-- source. It runs on fuel here, and running out of fuel is a stop; one more round than there are rows
-- that can become too old is enough, since a full round deletes at least one row. PostgreSQL and MySQL
-- read the time again in every round (Sql.AgingPurge), SQLite is sent one point in time (Sql.Purge).
-- No row is added during a purge. The hash of a conformance run is a `u64`; its sixteen hexadecimal
-- digits take no fuel. The loops of examples/kafka_consumer.rs, which have no end, run for any given
-- number of turns.
--
-- Not modelled: tracing, which changes no result; the rounding of `as_secs_f64`; sqlx's migrator; display texts; the value that a
-- failed assertion of src/testing.rs prints; src/lib.rs and tests/. The contracts of Store.Contract
-- speak of one transaction at a time; Sessions has any number, but each handler is one await there,
-- since it works on its own connection only, and no purge runs meanwhile. The locks of a batch are
-- followed row by row, as the default loop of src/store.rs takes them; an override in one statement
-- is documented to take them in the same order.
pub mod Common
pub mod Str
pub mod Result
pub mod Error
pub mod Types
pub mod Io
pub mod Retention
pub mod Store
pub mod Consumer
pub mod Sessions
pub mod Sqlx
pub mod Sql
pub mod Sqlite
pub mod Postgres
pub mod Mysql
pub mod KafkaConsumer
pub mod Testing
pub mod Memory
pub mod Tests
