-- ===== src/Sqlx.antt =====
-- sqlx, as the backends call it: a pool, its transactions and connections, and statements given as
-- text with their bound values.
pub mod Reliable
use Prim.Native.String.{String}
use txbox.Common.{ℕ, Bool, Option, List}
use txbox.Io.{Io}
use txbox.Str.{Str}

-- A bound value: text, bytes, a number, a point in time, an array, a JSON array, or a duration that is
-- sent as a float of seconds. It is the duration itself here, and what `as_secs_f64` rounds away is
-- left to the driver.
pub data Bind : Type 0 where
  text : Str → Bind
  bytes : List ℕ → Bind
  number : ℕ → Bind
  time : ℕ → Bind
  seconds : ℕ → Bind
  array : List Str → Bind
  json : List Str → Bind

-- `E` is `sqlx::Error`, with the errors of the other crates that a backend boxes.
pub record Driver (W E : Type 0) : Type 1 where
  pub Conn : Type 0
  pub Tx : Type 0
  pub conn : Tx → Conn
  -- leaving the scope of a transaction
  pub drop : Tx → W → W
  -- `pool.begin()`, and with the statement that opens the transaction
  pub begin : Io W E Tx
  pub begin_with : String → Io W E Tx
  pub commit : Tx → Io W E (Unit {0})
  pub rollback : Tx → Io W E (Unit {0})
  -- `Migrator::run` on the pool, with the migrations of the backend
  pub run_migrator : Io W E (Unit {0})
  -- rows affected; the strings of the one column selected
  pub execute : Conn → String → List Bind → Io W E ℕ
  pub fetch_all : Conn → String → List Bind → Io W E (List Str)
  pub raw_sql : Conn → String → Io W E (Unit {0})
  -- on any connection of the pool, outside a transaction
  pub execute_pool : String → List Bind → Io W E ℕ
  pub fetch_one_pool : String → List Bind → Io W E Bool
  -- `Error::Database(db)` and `db.code()`; the number of a MySQL error
  pub code : E → Option Str
  pub mysql_number : E → Option ℕ
  -- `Utc::now()`, in nanoseconds since the earliest time of `chrono`; `getrandom::u64()`
  pub now : W → ℕ
  pub random : Io W E ℕ
  -- `chrono`'s error for a duration out of its range, and the longest one
  pub out_of_range : E
  pub max_duration : ℕ
