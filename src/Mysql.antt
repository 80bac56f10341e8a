-- ===== src/Mysql.antt =====
-- src/mysql.rs: the backend over MySQL.
pub mod Refines
pub mod Reliable
pub mod Brackets
pub mod Restores
pub mod Timeout
pub mod Purge
pub mod Claims
pub mod Batch
use Prim.Native.String.{String}
use txbox.Common.{
  ℕ, ◌+◌, ◌-◌, ◌/◌, ◌^◌, max, min, Bool, true, false, ◌||◌, Option, none, some, List, [], ◌∷◌, map,
  if◌then◌else◌, ◌==◌, nat_eq,
}
use txbox.Error.{BoxError, InboxError, from_sqlx}
use txbox.Io.{Io, pure, lift, attempt, map_err, ◌>>=◌, ◌>>◌}
use txbox.Result.{Result, ok, err}
use txbox.Retention.{RetentionPolicy}
use txbox.Sql.{
  claims_from_fresh, claim_of_affected, execute, purge_loop, savepoint_sql,
  release_and_savepoint_sql, release_sql, rollback_to_sql,
}
use txbox.Sqlx.{Bind, Driver}
use txbox.Store.{InboxStore, Savepoints}
use txbox.Types.{Duration, Claim, ClaimBatch, ClaimRequest, ConsumerId, MessageId}

abbrev pub er_lock_wait_timeout : ℕ
er_lock_wait_timeout = 1205

abbrev pub er_lock_deadlock : ℕ
er_lock_deadlock = 1213

abbrev pub begin_sql : String
begin_sql =
    "SET SESSION innodb_lock_wait_timeout = CAST(COALESCE(@txbox_lock_wait_timeout, @@SESSION.innodb_lock_wait_timeout) AS UNSIGNED), @txbox_lock_wait_timeout = NULL; BEGIN"

abbrev pub set_lock_timeout_sql : String
set_lock_timeout_sql =
    "SET @txbox_lock_wait_timeout = @@SESSION.innodb_lock_wait_timeout, SESSION innodb_lock_wait_timeout = ?"

abbrev pub restore_lock_timeout_sql : String
restore_lock_timeout_sql =
    "SET SESSION innodb_lock_wait_timeout = CAST(@txbox_lock_wait_timeout AS UNSIGNED), @txbox_lock_wait_timeout = NULL"

abbrev pub claim_sql : String
claim_sql =
    "INSERT IGNORE INTO inbox_messages (consumer_id, message_id, processed_at) VALUES (?, ?, UTC_TIMESTAMP(6))"

abbrev pub claim_many_sql : String
claim_many_sql =
    "INSERT INTO inbox_messages (consumer_id, message_id, processed_at, claim_token) SELECT ?, j.id, UTC_TIMESTAMP(6), ? FROM JSON_TABLE(?, '$[*]' COLUMNS (id VARCHAR(512) CHARACTER SET utf8mb4 COLLATE utf8mb4_0900_bin PATH '$')) AS j ORDER BY j.id ON DUPLICATE KEY UPDATE consumer_id = inbox_messages.consumer_id"

abbrev pub claimed_by_token_sql : String
claimed_by_token_sql =
    "SELECT m.message_id FROM JSON_TABLE(?, '$[*]' COLUMNS (id VARCHAR(512) CHARACTER SET utf8mb4 COLLATE utf8mb4_0900_bin PATH '$')) AS j JOIN inbox_messages m ON m.consumer_id = ? AND m.message_id = j.id WHERE m.claim_token = ?"

abbrev pub unclaim_sql : String
unclaim_sql = "DELETE FROM inbox_messages WHERE consumer_id = ? AND message_id = ?"

abbrev pub purge_sql : String
purge_sql =
    "DELETE FROM inbox_messages WHERE processed_at < UTC_TIMESTAMP(6) - INTERVAL ? MICROSECOND ORDER BY processed_at LIMIT ?"

abbrev pub known_duplicate_sql : String
known_duplicate_sql =
    "SELECT EXISTS ( SELECT 1 FROM inbox_messages WHERE consumer_id = ? AND message_id = ? )"

-- `u64::try_from(n).unwrap_or(u64::MAX)`
unfoldable pub saturate : ℕ → ℕ
saturate n = min n (2 ^ 64 - 1)

unfoldable pub mysql_lock_timeout : Duration → ℕ
unfolding saturate
mysql_lock_timeout timeout = min (saturate (max ((timeout + 999999999) / 1000000000) 1)) 1073741824

unfoldable pub is_contention : Option ℕ → Bool
is_contention none = false
is_contention (some number) = number == er_lock_wait_timeout || number == er_lock_deadlock

module _ {W E : Type 0} (q : Driver W E) where
  unfoldable pub claim_error : E → InboxError E
  unfolding is_contention from_sqlx
  claim_error e = if is_contention (q.mysql_number e) then InboxError.contended else from_sqlx e

  pub set_lock_timeout : q.Conn → Option Duration → Io W E (Unit {0})
  set_lock_timeout conn none = pure tt
  set_lock_timeout conn (some timeout) = do
    q.execute conn set_lock_timeout_sql (Bind.number (mysql_lock_timeout timeout) ∷ [])
    pure tt

  pub restore_lock_timeout : q.Conn → Option Duration → Io W E (Unit {0})
  restore_lock_timeout conn none = pure tt
  restore_lock_timeout conn (some timeout) = do q.raw_sql conn restore_lock_timeout_sql; pure tt

  -- The session's own timeout is restored on the error path too; the error of the claim wins.
  pub claim : q.Conn → ClaimRequest → Io W (InboxError E) Claim
  claim conn r = do
    map_err from_sqlx (set_lock_timeout conn r.lock_timeout)
    result ←
        attempt
          (q.execute conn claim_sql (Bind.text r.consumer.as_str ∷ Bind.text r.id.as_str ∷ []))
    restored ← attempt (restore_lock_timeout conn r.lock_timeout)
    affected ← map_err claim_error (lift result)
    map_err from_sqlx (lift restored)
    pure (claim_of_affected affected)

  pub claim_many : q.Conn → ClaimBatch → Io W (InboxError E) (List Claim)
  claim_many conn b = do
    token ← map_err from_sqlx q.random
    let ids = map (λ (m : MessageId). m.as_str) b.ids
    map_err from_sqlx (set_lock_timeout conn b.lock_timeout)
    result ← attempt (
        q.execute conn claim_many_sql
          (Bind.text b.consumer.as_str ∷ Bind.number token ∷ Bind.json ids ∷ []))
    restored ← attempt (restore_lock_timeout conn b.lock_timeout)
    map_err claim_error (lift result)
    map_err from_sqlx (lift restored)
    fresh ← map_err from_sqlx (
        q.fetch_all conn claimed_by_token_sql
          (Bind.json ids ∷ Bind.text b.consumer.as_str ∷ Bind.number token ∷ []))
    pure (claims_from_fresh ids fresh)

  pub is_known_duplicate : ConsumerId → MessageId → Io W (InboxError E) Bool
  is_known_duplicate consumer id =
      map_err from_sqlx (
        q.fetch_one_pool known_duplicate_sql (Bind.text consumer.as_str ∷ Bind.text id.as_str ∷ []))

  pub purge : ℕ → RetentionPolicy → Io W (InboxError E) ℕ
  purge fuel policy =
      purge_loop
        (map_err from_sqlx (
          q.execute_pool purge_sql
            (Bind.number (saturate (policy.max_age / 1000)) ∷ Bind.number policy.batch_size ∷ [])))
        policy.batch_size fuel 0

  -- `MySqlInbox::migrate`
  unfoldable pub migrate : Io W (InboxError E) (Unit {0})
  migrate = map_err (λ e. InboxError.backend (BoxError.foreign e)) q.run_migrator

  -- `impl InboxStore for MySqlInbox`
  abbrev pub mysql_inbox : ℕ → InboxStore W E
  mysql_inbox fuel = record {
    Conn = q.Conn;
    Tx = q.Tx;
    conn = q.conn;
    drop = q.drop;
    begin = map_err from_sqlx (q.begin_with begin_sql);
    commit = λ tx. map_err from_sqlx (q.commit tx);
    rollback = λ tx. map_err from_sqlx (q.rollback tx);
    claim = claim;
    claim_many = claim_many;
    is_known_duplicate = is_known_duplicate;
    purge = purge fuel;
  }

  unfoldable pub unclaim : q.Conn → ConsumerId → MessageId → Io W (InboxError E) (Unit {0})
  unclaim conn consumer id = map_err from_sqlx (
      q.execute conn unclaim_sql (Bind.text consumer.as_str ∷ Bind.text id.as_str ∷ []) >>= λ _.
      pure tt)

  -- `impl Savepoints for MySqlInbox`
  abbrev pub mysql_savepoints : (fuel : ℕ) → Savepoints (mysql_inbox fuel)
  mysql_savepoints fuel = record {
    savepoint = λ conn. execute q conn savepoint_sql;
    release_and_savepoint = λ conn. execute q conn release_and_savepoint_sql;
    release = λ conn. execute q conn release_sql;
    rollback_to = λ conn. execute q conn rollback_to_sql;
    unclaim = unclaim;
  }
