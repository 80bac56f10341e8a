-- ===== src/Tests/Backends.antt =====
-- The backends, over the database in memory.
use txbox.Common.{◌+◌, ◌*◌, ◌^◌, ◌%◌, ◌≤◌, min, [], ◌∷◌, map, none, some, ◌≡◌, ◌≢◌, arith}
use txbox.Consumer.{unique_ids}
use txbox.Consumer.Unique.{unique_ids-IsAscending}
use txbox.Io.Triple.{Gives}
use txbox.Memory.{memory}
use txbox.Memory.Laws.{
  memory-MysqlBatch, memory_transactions, memory_sqlite, memory_postgres, memory-PurgeStatement,
}
use txbox.Mysql
use txbox.Mysql.Batch.{mysql_claim_many_lem}
use txbox.Mysql.Timeout.{mysql_lock_timeout_bounds}
use txbox.Postgres
use txbox.Postgres.Refines.{pg_claim_many_lem}
use txbox.Postgres.Timeout.{pg_lock_timeout_ms_bounds}
use txbox.Retention.{retention_policy, with_batch_size}
use txbox.Sqlite
use txbox.Sqlite.Purge.{sqlite_purge_lem}
use txbox.Sqlite.Refines.{sqlite_claim_many_lem}
use txbox.Sqlx.{Bind}
use txbox.Store.{default_claim_many}
use txbox.Store.Contract.{add_all, answer}
use txbox.Store.Defaults.{default_claim_many-map}
use txbox.Tests.Fixture.{shop, shop_contract, m1, m2, m3, known_db, world_of, billing}
use txbox.Types.{ClaimBatch, ClaimRequest}

abbrev request : ClaimRequest
request = record { consumer = billing; id = m1; lock_timeout = some 1500000 }

abbrev batch : ClaimBatch
batch = record { consumer = billing; ids = m1 ∷ m2 ∷ m3 ∷ []; lock_timeout = some 1500000 }

-- As the consumer hands it over.
abbrev sorted_batch : ClaimBatch
sorted_batch = record {
  consumer = billing;
  ids = unique_ids (m3 ∷ m1 ∷ m3 ∷ []);
  lock_timeout = none;
}

sqlite_claim_many_lem_example :
    Gives
      (world_of known_db)
      (Sqlite.claim_many memory tt batch)
      (λ ks w'.
        (w'.committed ≡ known_db)
        × (w'.seen ≡ add_all billing batch.ids known_db)
        × (ks ≡ map (answer billing known_db) batch.ids))
      (λ _ w'. w'.committed ≡ known_db)
sqlite_claim_many_lem_example =
    sqlite_claim_many_lem memory memory_transactions memory_sqlite 10 tt batch (world_of known_db)

mysql_claim_many_lem_example :
    Gives
      (world_of known_db)
      (Mysql.claim_many memory tt batch)
      (λ ks w'.
        (w'.committed ≡ known_db)
        × (w'.seen ≡ add_all billing batch.ids known_db)
        × (ks ≡ map (answer billing known_db) batch.ids))
      (λ _ w'. w'.committed ≡ known_db)
mysql_claim_many_lem_example =
    mysql_claim_many_lem memory memory_transactions memory-MysqlBatch tt batch (world_of known_db)

pg_claim_many_lem_example :
    Gives
      (world_of known_db)
      (Postgres.claim_many memory tt batch)
      (λ ks w'.
        (w'.committed ≡ known_db)
        × (w'.seen ≡ add_all billing batch.ids known_db)
        × (ks ≡ map (answer billing known_db) batch.ids))
      (λ _ w'. w'.committed ≡ known_db)
pg_claim_many_lem_example =
    pg_claim_many_lem memory memory_transactions memory_postgres 10 tt batch (world_of known_db)

default_claim_many-map_example :
    Gives
      (world_of known_db)
      (default_claim_many shop.store.claim tt sorted_batch)
      (λ ks w'.
        (w'.committed ≡ known_db)
        × (w'.seen ≡ add_all billing sorted_batch.ids known_db)
        × (ks ≡ map (answer billing known_db) sorted_batch.ids))
      (λ _ w'. w'.committed ≡ known_db)
default_claim_many-map_example =
    default_claim_many-map shop.store shop_contract tt sorted_batch (world_of known_db)
      (unique_ids-IsAscending (m3 ∷ m1 ∷ m3 ∷ []))

-- 25 rows are too old; three rounds of 10.
sqlite_purge_lem_example :
    Gives
      (world_of known_db)
      (Sqlite.purge memory 26 (with_batch_size (retention_policy 30) 10))
      (λ deleted w'. (deleted ≡ 25 % 2 ^ 64) × (w'.stale ≡ 0))
      (λ x _. x ≢ none)
sqlite_purge_lem_example =
    sqlite_purge_lem memory (λ w. w.stale) 26 30 10 (world_of known_db)
      (memory-PurgeStatement Sqlite.purge_sql (Bind.time 70) 10) (omega arith) (omega arith)
      (omega arith)

pg_lock_timeout_ms_bounds_example :
    (1 ≤ Postgres.pg_lock_timeout_ms 1500000)
    × (1500000 ≤ Postgres.pg_lock_timeout_ms 1500000 * 1000000)
    × (Postgres.pg_lock_timeout_ms 1500000 * 1000000 ≤ 1500000 + 1000000)
pg_lock_timeout_ms_bounds_example = pg_lock_timeout_ms_bounds 1500000

mysql_lock_timeout_bounds_example :
    (1 ≤ Mysql.mysql_lock_timeout 1500000)
    × (Mysql.mysql_lock_timeout 1500000 ≤ 1073741824)
    × (min 1500000 1073741824000000000 ≤ Mysql.mysql_lock_timeout 1500000 * 1000000000)
    × (Mysql.mysql_lock_timeout 1500000 * 1000000000 ≤ 1500000 + 1000000000)
mysql_lock_timeout_bounds_example = mysql_lock_timeout_bounds 1500000
