-- ===== src/Memory/Returns.antt =====
-- Every call of the database in memory returns.
use Prim.Native.String.{String}
use txbox.Common.{ℕ, List, arith}
use txbox.Memory.{memory_of, memory, ignore, run_statement, run_query}
use txbox.Mysql.Reliable.{ReliableMysql}
use txbox.Sqlx.{Bind}
use txbox.Sqlx.Reliable.{ReliableDriver}
use txbox.Store.Reliable.{Returns}

run_statement-Returns :
    {App : Type 0} (store : List ℕ → App → App) (sql : String) (binds : List Bind)
    → Returns ⊥ (run_statement store sql binds)
run_statement-Returns store sql binds = record { at = λ w h. ground arith }

run_query-Returns : {App : Type 0} (binds : List Bind) → Returns ⊥ (run_query {App = App} binds)
run_query-Returns binds = record { at = λ w h. ground arith }

pub memory_of-ReliableDriver :
    {App : Type 0} (store : List ℕ → App → App) → ReliableDriver (memory_of store) ⊥
memory_of-ReliableDriver store = record {
  begin_lem = record { at = λ w h. h };
  commit_lem = λ tx. record { at = λ w h. h };
  rollback_lem = λ tx. record { at = λ w h. h };
  execute_lem = λ conn. run_statement-Returns store;
  fetch_all_lem = λ conn sql. run_query-Returns;
}

pub memory-ReliableDriver : ReliableDriver memory ⊥
memory-ReliableDriver = memory_of-ReliableDriver ignore

pub memory-ReliableMysql : ReliableMysql memory ⊥
memory-ReliableMysql = record {
  begin_with_lem = record { at = λ w h. h };
  restore_lem = λ conn. record { at = λ w h. h };
  random_lem = record { at = λ w h. h };
}
