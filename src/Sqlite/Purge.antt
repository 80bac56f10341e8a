-- ===== src/Sqlite/Purge.antt =====
-- `SqliteInbox::purge`, over a SQLite whose purge statement does what it says.
use txbox.Common.{ℕ, ◌-◌, ◌%◌, ◌^◌, ◌≤◌, ◌<◌, max, ◌≡◌, ◌≢◌, none, [], ◌∷◌, arith, false, ltb}
use txbox.Error.{from_sqlx}
use txbox.Io.Triple.{Gives}
use txbox.Retention.{retention_policy, with_batch_size}
use txbox.Sql.Purge.{PurgeStatement, PurgeStatement-wrapped, purge_loop-deletes}
use txbox.Sqlite.{purge, purge_sql}
use txbox.Sqlx.{Bind, Driver}
use txbox.Types.{Duration}

module _ {W E : Type 0} (q : Driver W E) (stale : W → ℕ) where
  -- A policy of any age and batch size, zero included: over a purge statement that deletes up to its
  -- limit of the rows that are too old, with more rounds than there are such rows, an age that
  -- `chrono` can hold and that does not reach before its earliest time, `purge` returns their number,
  -- as a `u64`, and leaves none, or it returns an error; it neither panics nor runs on for ever.
  pub sqlite_purge_lem :
      (fuel : ℕ) (age : Duration) (batch : ℕ) (w : W)
      → PurgeStatement
          (q.execute_pool purge_sql (Bind.time (q.now w - age) ∷ Bind.number (max batch 1) ∷ []))
          (max batch 1)
          stale
      → age ≤ q.max_duration
      → age ≤ q.now w
      → stale w < fuel
      → Gives w
          (purge q fuel (with_batch_size (retention_policy age) batch))
          (λ deleted w'. (deleted ≡ stale w % 2 ^ 64) × (stale w' ≡ 0))
          (λ x _. x ≢ none)
  unfolding purge retention_policy with_batch_size
  sqlite_purge_lem fuel age batch w law short past enough =
      let in_range : ltb q.max_duration age ≡ false = ground arith in
      let after : ltb (q.now w) age ≡ false = ground arith in
      rw (in_range, after)
        (purge_loop-deletes _ (max batch 1) stale (PurgeStatement-wrapped from_sqlx law) fuel w
          (omega arith) enough)
