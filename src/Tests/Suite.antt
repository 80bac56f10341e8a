-- ===== src/Tests/Suite.antt =====
-- The conformance suite and redelivery, over the database in memory, whose calls all return.
use txbox.Common.{ℕ, arith, [], ◌∷◌, ◌++◌, ◌≡◌, ◌==◌, ◌&&◌, refl}
use txbox.Consumer.Eventually.{deliver_all-applied}
use txbox.Consumer.Redelivery.{deliver_all}
use txbox.Io.Triple.{Gives}
use txbox.Io.{◌>>◌}
use txbox.Store.Contract.{Db}
use txbox.Str.{Str}
use txbox.Testing.{run_new}
use txbox.Testing.Checks.{conformance}
use txbox.Testing.Batches.{savepoints_conformance}
use txbox.Testing.Poisoned.{KeepsOpen}
use txbox.Testing.Savepoints.{savepoints_conformance_triple}
use txbox.Sqlite
use txbox.Tests.Batch.{shop_savepoints_reliable}
use txbox.Testing.Backends.{conformance-sqlite_inbox, conformance-pg_inbox, conformance-mysql_inbox}
use txbox.Sqlite.{sqlite_inbox}
use txbox.Postgres.{pg_inbox}
use txbox.Mysql.{mysql_inbox}
use txbox.Memory.Returns.{memory-ReliableDriver, memory-ReliableMysql}
use txbox.Memory.{memory}
use txbox.Memory.Laws.{
  memory-MysqlBatch, memory_transactions, memory_sqlite, memory_postgres, memory_mysql,
}
use txbox.Testing.Names.{scoped_consumer}
use txbox.Testing.Probes.{Excused}
use txbox.Testing.Processes.{IsNew}
use txbox.Testing.Repeats.{conformance-conformance}
use txbox.Testing.Suite.{IsForeign, conformance_triple}
use txbox.Tests.Fixture.{
  shop, shop_contract, shop_savepoints, shop_savepoint_contract, shop_reliable, m1, empty_db,
  world_of, count_handler, failing_handler, effect_of, count_handler-HandlerContract,
  failing_handler-HandlerContract, billing,
}
use txbox.Types.{ConsumerId, MessageId, consumer_id_eq, message_id_eq}

-- "m1" is recorded for "billing".
abbrev billed_db : Db ℕ
billed_db = record { row = λ c m. c == billing && m == m1; app = 4 }

billed_db-IsNew : (check : Str) → IsNew (scoped_consumer (run_new 0xcafe) check) billed_db
unfolding scoped_consumer
billed_db-IsNew check m = refl

billed_db-IsNew' : (check : Str) → IsNew (scoped_consumer (run_new 0xbeef) check) billed_db
unfolding scoped_consumer
billed_db-IsNew' check m = refl

conformance_triple_example :
    Gives
      (world_of billed_db)
      (conformance shop.store 0xcafe)
      (λ _ w'.
        (j : ConsumerId) (m : MessageId)
        → IsForeign (run_new 0xcafe) j
        → w'.committed.row j m ≡ billed_db.row j m)
      (λ x _. Excused ⊥ x)
conformance_triple_example =
    conformance_triple shop.store shop_contract ⊥ shop_reliable 0xcafe billed_db billed_db-IsNew
      (world_of billed_db) refl

-- The first of three deliveries fails.
deliver_all-applied_example :
    (deliver_all shop m1
      ((failing_handler ∷ count_handler ∷ []) ++ count_handler ∷ [])
      (world_of empty_db)).committed.app
    ≡ 5
deliver_all-applied_example =
    deliver_all-applied shop shop_contract shop_reliable m1 effect_of count_handler
      count_handler-HandlerContract (λ conn. record { at = λ w h. tt }) 4
      (failing_handler ∷ count_handler ∷ []) (world_of empty_db)
      (failing_handler-HandlerContract, (count_handler-HandlerContract, tt)) refl

conformance-conformance_example :
    Gives
      (world_of billed_db)
      (conformance shop.store 0xcafe >> conformance shop.store 0xbeef)
      (λ _ w'.
        (j : ConsumerId) (m : MessageId)
        → IsForeign (run_new 0xcafe) j
        → IsForeign (run_new 0xbeef) j
        → w'.committed.row j m ≡ billed_db.row j m)
      (λ x _. Excused ⊥ x)
conformance-conformance_example =
    conformance-conformance shop.store shop_contract ⊥ shop_reliable 0xcafe 0xbeef billed_db
      (omega arith) (omega arith) (λ e. absurd (omega arith)) billed_db-IsNew billed_db-IsNew'
      (world_of billed_db) refl

shop-KeepsOpen : KeepsOpen shop.store shop_savepoints shop_contract shop_savepoint_contract
unfolding Sqlite.claim
shop-KeepsOpen conn c m u = record { at = λ w h. h }

savepoints_conformance_triple_example :
    Gives
      (world_of billed_db)
      (savepoints_conformance shop.store shop_savepoints 0xcafe)
      (λ _ w'.
        (j : ConsumerId) (m : MessageId)
        → IsForeign (run_new 0xcafe) j
        → w'.committed.row j m ≡ billed_db.row j m)
      (λ x _. ⊥)
savepoints_conformance_triple_example =
    savepoints_conformance_triple shop.store shop_savepoints shop_contract shop_savepoint_contract
      shop_reliable shop_savepoints_reliable shop-KeepsOpen 0xcafe billed_db billed_db-IsNew
      (world_of billed_db) refl

conformance-sqlite_inbox_example :
    Gives
      (world_of billed_db)
      (conformance (sqlite_inbox memory 10) 0xcafe)
      (λ _ w'.
        (j : ConsumerId) (m : MessageId)
        → IsForeign (run_new 0xcafe) j
        → w'.committed.row j m ≡ billed_db.row j m)
      (λ x _. Excused ⊥ x)
conformance-sqlite_inbox_example =
    conformance-sqlite_inbox memory ⊥ memory-ReliableDriver 10 0xcafe (world_of billed_db)
      memory_transactions memory_sqlite billed_db-IsNew

conformance-pg_inbox_example :
    Gives
      (world_of billed_db)
      (conformance (pg_inbox memory 10) 0xcafe)
      (λ _ w'.
        (j : ConsumerId) (m : MessageId)
        → IsForeign (run_new 0xcafe) j
        → w'.committed.row j m ≡ billed_db.row j m)
      (λ x _. Excused ⊥ x)
conformance-pg_inbox_example =
    conformance-pg_inbox memory ⊥ memory-ReliableDriver 10 0xcafe (world_of billed_db)
      memory_transactions memory_postgres billed_db-IsNew

conformance-mysql_inbox_example :
    Gives
      (world_of billed_db)
      (conformance (mysql_inbox memory 10) 0xcafe)
      (λ _ w'.
        (j : ConsumerId) (m : MessageId)
        → IsForeign (run_new 0xcafe) j
        → w'.committed.row j m ≡ billed_db.row j m)
      (λ x _. Excused ⊥ x)
conformance-mysql_inbox_example =
    conformance-mysql_inbox memory ⊥ memory-ReliableDriver 10 0xcafe (world_of billed_db)
      memory_transactions memory_mysql memory-MysqlBatch memory-ReliableMysql billed_db-IsNew
