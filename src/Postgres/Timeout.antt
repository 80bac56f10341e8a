-- ===== src/Postgres/Timeout.antt =====
-- The lock timeout that PostgreSQL gets.
use txbox.Common.{◌+◌, ◌*◌, ◌≤◌, arith}
use txbox.Postgres.{pg_lock_timeout_ms}
use txbox.Types.{Duration}

-- The whole milliseconds sent are at least one, are no shorter than the timeout asked for, and are
-- at most one millisecond longer.
pub pg_lock_timeout_ms_bounds :
    (timeout : Duration)
    → (1 ≤ pg_lock_timeout_ms timeout)
      × (timeout ≤ pg_lock_timeout_ms timeout * 1000000)
      × (pg_lock_timeout_ms timeout * 1000000 ≤ timeout + 1000000)
unfolding pg_lock_timeout_ms
pg_lock_timeout_ms_bounds timeout = omega arith
