-- ===== src/Testing/Backends.antt =====
-- The backends pass the suite: `conformance` over SQLite, PostgreSQL and MySQL.
use txbox.Common.{ℕ, ◌≡◌, refl}
use txbox.Io.Triple.{Gives}
use txbox.Mysql.{begin_sql, mysql_inbox}
use txbox.Mysql.Batch.{MysqlBatch}
use txbox.Mysql.Claims.{MysqlClaim}
use txbox.Mysql.Refines.{mysql_contract}
use txbox.Mysql.Reliable.{ReliableMysql, mysql-Reliable}
use txbox.Postgres.{pg_inbox}
use txbox.Postgres.Refines.{PgStatements, pg_contract}
use txbox.Postgres.Reliable.{pg-Reliable}
use txbox.Sql.Laws.{Transactions}
use txbox.Sqlite.{sqlite_inbox}
use txbox.Sqlite.Refines.{SqliteStatements, sqlite_contract}
use txbox.Sqlite.Reliable.{sqlite-Reliable}
use txbox.Sqlx.{Driver}
use txbox.Sqlx.Reliable.{ReliableDriver}
use txbox.Testing.{run_new}
use txbox.Testing.Checks.{conformance}
use txbox.Testing.Names.{scoped_consumer}
use txbox.Testing.Probes.{Excused}
use txbox.Testing.Processes.{IsNew}
use txbox.Testing.Suite.{IsForeign, conformance_triple}
use txbox.Types.{ConsumerId, MessageId}
use txbox.Str.{Str}

module _ {W E App : Type 0} (q : Driver W E) (Faulty : Type 0) (f : ReliableDriver q Faulty)
    (fuel n : ℕ) (w : W) where
  -- Over a SQLite that runs its statements as documented, and contents without rows for the consumers
  -- of the run, `conformance` of `SqliteInbox` returns and leaves the rows of every other consumer as
  -- they were; or a call of sqlx failed or stopped (`Faulty`), and the suite ends with that.
  pub conformance-sqlite_inbox :
      (t : Transactions q q.begin App) (s : SqliteStatements q t)
      → ((check : Str) → IsNew (scoped_consumer (run_new n) check) (t.committed w))
      → Gives w
          (conformance (sqlite_inbox q fuel) n)
          (λ _ w'.
            (j : ConsumerId) (m : MessageId)
            → IsForeign (run_new n) j
            → (t.committed w').row j m ≡ (t.committed w).row j m)
          (λ x _. Excused Faulty x)
  conformance-sqlite_inbox t s new =
      conformance_triple (sqlite_inbox q fuel) (sqlite_contract q t s fuel) Faulty
        (sqlite-Reliable q Faulty f fuel) n (t.committed w) new w refl

  -- Over a PostgreSQL that runs its statements as documented, and contents without rows for the
  -- consumers of the run, `conformance` of `PgInbox` returns and leaves the rows of every other
  -- consumer as they were; or a call of sqlx failed or stopped (`Faulty`), and the suite ends with
  -- that.
  pub conformance-pg_inbox :
      (t : Transactions q q.begin App) (s : PgStatements q t)
      → ((check : Str) → IsNew (scoped_consumer (run_new n) check) (t.committed w))
      → Gives w
          (conformance (pg_inbox q fuel) n)
          (λ _ w'.
            (j : ConsumerId) (m : MessageId)
            → IsForeign (run_new n) j
            → (t.committed w').row j m ≡ (t.committed w).row j m)
          (λ x _. Excused Faulty x)
  conformance-pg_inbox t s new =
      conformance_triple (pg_inbox q fuel) (pg_contract q t s fuel) Faulty
        (pg-Reliable q Faulty f fuel) n (t.committed w) new w refl

  -- Over a MySQL that runs its statements as documented, tokens that do not repeat, and contents
  -- without rows for the consumers of the run, `conformance` of `MySqlInbox` returns and leaves the
  -- rows of every other consumer as they were; or a call of sqlx failed or stopped (`Faulty`), and
  -- the suite ends with that.
  pub conformance-mysql_inbox :
      (t : Transactions q (q.begin_with begin_sql) App) (s : MysqlClaim q t) (b : MysqlBatch q t)
      → ReliableMysql q Faulty
      → ((check : Str) → IsNew (scoped_consumer (run_new n) check) (t.committed w))
      → Gives w
          (conformance (mysql_inbox q fuel) n)
          (λ _ w'.
            (j : ConsumerId) (m : MessageId)
            → IsForeign (run_new n) j
            → (t.committed w').row j m ≡ (t.committed w).row j m)
          (λ x _. Excused Faulty x)
  conformance-mysql_inbox t s b g new =
      conformance_triple (mysql_inbox q fuel) (mysql_contract q t s b fuel) Faulty
        (mysql-Reliable q Faulty f g fuel) n (t.committed w) new w refl
