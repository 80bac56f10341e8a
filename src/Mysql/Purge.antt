-- ===== src/Mysql/Purge.antt =====
-- `MySqlInbox::purge`, over a MySQL whose purge statement does what it says.
use txbox.Common.{ℕ, ◌/◌, ◌%◌, ◌^◌, ◌≤◌, ◌<◌, max, ◌≡◌, ◌≢◌, none, [], ◌∷◌, arith}
use txbox.Error.{from_sqlx}
use txbox.Io.Triple.{Gives}
use txbox.Retention.{retention_policy, with_batch_size}
use txbox.Sql.AgingPurge.{AgingPurge, AgingPurge-wrapped, purge_loop-ages}
use txbox.Mysql.{purge, purge_sql, saturate}
use txbox.Sqlx.{Bind, Driver}
use txbox.Types.{Duration}

-- `clock` is the time that the last statement read, `too_old w u` the number of rows whose age passes
-- the limit by the time `u`. Every round of the loop reads `UTC_TIMESTAMP(6)` again.
module _ {W E : Type 0} (q : Driver W E) (clock : W → ℕ) (too_old : W → ℕ → ℕ) where
  -- A policy of any age and batch size, zero included, over a purge statement that reads the time
  -- and deletes up to its limit of the rows that are too old by then, while no row is added: with
  -- more rounds than rows that can ever become too old, `purge` neither panics nor runs on for
  -- ever, although rows become too old between its rounds. It returns an error, or it has deleted
  -- exactly the rows that were too old by the time that its last statement read, returns their
  -- number, as a `u64`, and leaves none.
  pub mysql_purge_lem :
      (fuel : ℕ) (age : Duration) (batch rows : ℕ) (w : W)
      → AgingPurge
          (q.execute_pool purge_sql
            (Bind.number (saturate (age / 1000)) ∷ Bind.number (max batch 1) ∷ []))
          (max batch 1)
          clock
          too_old
      → ((u : ℕ) → clock w ≤ u → too_old w u ≤ rows)
      → rows < fuel
      → Gives w
          (purge q fuel (with_batch_size (retention_policy age) batch))
          (λ deleted w'.
            (clock w ≤ clock w')
            × (deleted ≡ too_old w (clock w') % 2 ^ 64)
            × (too_old w' (clock w') ≡ 0))
          (λ x _. x ≢ none)
  unfolding purge retention_policy with_batch_size
  mysql_purge_lem fuel age batch rows w law few enough =
      purge_loop-ages _ (max batch 1) clock too_old (AgingPurge-wrapped from_sqlx law) fuel rows w
        (omega arith) enough few
