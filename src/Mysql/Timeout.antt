-- ===== src/Mysql/Timeout.antt =====
-- The lock timeout that MySQL gets.
use txbox.Common.{◌+◌, ◌*◌, ◌≤◌, min, arith}
use txbox.Mysql.{mysql_lock_timeout, saturate}
use txbox.Types.{Duration}

-- The whole seconds sent are between one and MySQL's maximum, are no shorter than the timeout asked
-- for or than that maximum, whichever is less, and are at most one second longer than it.
pub mysql_lock_timeout_bounds :
    (timeout : Duration)
    → (1 ≤ mysql_lock_timeout timeout)
      × (mysql_lock_timeout timeout ≤ 1073741824)
      × (min timeout 1073741824000000000 ≤ mysql_lock_timeout timeout * 1000000000)
      × (mysql_lock_timeout timeout * 1000000000 ≤ timeout + 1000000000)
unfolding mysql_lock_timeout saturate
mysql_lock_timeout_bounds timeout = omega arith
