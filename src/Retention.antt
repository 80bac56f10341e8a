-- ===== src/Retention.antt =====
-- src/retention.rs: how long messages are kept, and how many rows a purge statement deletes.
use txbox.Common.{ℕ, max}
use txbox.Types.{Duration}

pub record RetentionPolicy : Type 0 where
  pub max_age : Duration
  pub batch_size : ℕ

-- `RetentionPolicy::new`
unfoldable pub retention_policy : Duration → RetentionPolicy
retention_policy max_age = record { max_age = max_age; batch_size = 1000 }

unfoldable pub with_batch_size : RetentionPolicy → ℕ → RetentionPolicy
with_batch_size policy batch_size = record policy { batch_size = max batch_size 1 }
