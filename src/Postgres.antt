-- ===== src/Postgres.antt =====
-- src/postgres.rs: the backend over PostgreSQL.
pub mod Reliable
pub mod Timeout
pub mod Purge
pub mod Refines
use Prim.Native.String.{String}
use txbox.Common.{
  ℕ, ◌+◌, ◌-◌, ◌/◌, max, Bool, true, false, ◌||◌, Option, none, some, List, [], ◌∷◌, ◌++◌, map,
  if◌then◌else◌, ◌==◌,
}
use txbox.Error.{BoxError, InboxError, from_sqlx}
use txbox.Io.{Io, pure, map_err, ◌>>=◌, ◌>>◌}
use txbox.Retention.{RetentionPolicy}
use txbox.Sql.{
  claims_from_fresh, claim_of_affected, execute, purge_loop, savepoint_sql,
  release_and_savepoint_sql, release_sql, rollback_to_sql,
}
use txbox.Sqlx.{Bind, Driver}
use txbox.Store.{InboxStore, Savepoints}
use txbox.Str.{Str, str, str_eq, decimal}
use txbox.Types.{Duration, Claim, ClaimBatch, ClaimRequest, ConsumerId, MessageId}

abbrev pub lock_not_available : Str
lock_not_available = str "55P03"

abbrev pub deadlock_detected : Str
deadlock_detected = str "40P01"

abbrev pub unclaim_sql : String
unclaim_sql = "DELETE FROM inbox_messages WHERE consumer_id = $1 AND message_id = $2"

abbrev pub claim_sql : String
claim_sql =
    "INSERT INTO inbox_messages (consumer_id, message_id, processed_at) VALUES ($1, $2, now()) ON CONFLICT (consumer_id, message_id) DO NOTHING"

abbrev pub claim_many_sql : String
claim_many_sql =
    "INSERT INTO inbox_messages (consumer_id, message_id, processed_at) SELECT $1, id, now() FROM unnest($2::text[]) AS t(id) ORDER BY id COLLATE \"C\" ON CONFLICT (consumer_id, message_id) DO NOTHING RETURNING message_id"

abbrev pub purge_sql : String
purge_sql =
    "DELETE FROM inbox_messages WHERE ctid IN ( SELECT ctid FROM inbox_messages WHERE processed_at < now() - make_interval(secs => $1) ORDER BY processed_at LIMIT $2 )"

abbrev pub set_lock_timeout_sql : String
set_lock_timeout_sql = "SELECT set_config('lock_timeout', $1, true)"

abbrev pub known_duplicate_sql : String
known_duplicate_sql =
    "SELECT EXISTS ( SELECT 1 FROM inbox_messages WHERE consumer_id = $1 AND message_id = $2 )"

-- `timeout.as_nanos().div_ceil(1_000_000).max(1)`
unfoldable pub pg_lock_timeout_ms : Duration → ℕ
pg_lock_timeout_ms timeout = max ((timeout + 999999) / 1000000) 1

unfoldable pub pg_lock_timeout : Duration → Str
pg_lock_timeout timeout = decimal (pg_lock_timeout_ms timeout) ++ str "ms"

unfoldable pub is_contention : Option Str → Bool
is_contention none = false
is_contention (some code) = code == lock_not_available || code == deadlock_detected

module _ {W E : Type 0} (q : Driver W E) where
  unfoldable pub claim_error : E → InboxError E
  unfolding is_contention from_sqlx
  claim_error e = if is_contention (q.code e) then InboxError.contended else from_sqlx e

  unfoldable pub set_lock_timeout : q.Conn → Option Duration → Io W E (Unit {0})
  set_lock_timeout conn none = pure tt
  set_lock_timeout conn (some timeout) = do
    q.execute conn set_lock_timeout_sql (Bind.text (pg_lock_timeout timeout) ∷ [])
    pure tt

  unfoldable pub claim : q.Conn → ClaimRequest → Io W (InboxError E) Claim
  claim conn r = do
    map_err from_sqlx (set_lock_timeout conn r.lock_timeout)
    affected ←
        map_err (claim_error)
          (q.execute conn claim_sql (Bind.text r.consumer.as_str ∷ Bind.text r.id.as_str ∷ []))
    pure (claim_of_affected affected)

  pub claim_many : q.Conn → ClaimBatch → Io W (InboxError E) (List Claim)
  claim_many conn b = do
    map_err from_sqlx (set_lock_timeout conn b.lock_timeout)
    let ids = map (λ (m : MessageId). m.as_str) b.ids
    fresh ←
        map_err (claim_error)
          (q.fetch_all conn claim_many_sql (Bind.text b.consumer.as_str ∷ Bind.array ids ∷ []))
    pure (claims_from_fresh ids fresh)

  pub is_known_duplicate : ConsumerId → MessageId → Io W (InboxError E) Bool
  is_known_duplicate consumer id =
      map_err from_sqlx (
        q.fetch_one_pool known_duplicate_sql (Bind.text consumer.as_str ∷ Bind.text id.as_str ∷ []))

  pub purge : ℕ → RetentionPolicy → Io W (InboxError E) ℕ
  purge fuel policy =
      purge_loop
        (map_err from_sqlx (
          q.execute_pool purge_sql
            (Bind.seconds policy.max_age ∷ Bind.number policy.batch_size ∷ [])))
        policy.batch_size fuel 0

  -- `PgInbox::migrate`
  unfoldable pub migrate : Io W (InboxError E) (Unit {0})
  migrate = map_err (λ e. InboxError.backend (BoxError.foreign e)) q.run_migrator

  -- `impl InboxStore for PgInbox`
  abbrev pub pg_inbox : ℕ → InboxStore W E
  pg_inbox fuel = record {
    Conn = q.Conn;
    Tx = q.Tx;
    conn = q.conn;
    drop = q.drop;
    begin = map_err from_sqlx q.begin;
    commit = λ tx. map_err from_sqlx (q.commit tx);
    rollback = λ tx. map_err from_sqlx (q.rollback tx);
    claim = claim;
    claim_many = claim_many;
    is_known_duplicate = is_known_duplicate;
    purge = purge fuel;
  }

  unfoldable pub unclaim : q.Conn → ConsumerId → MessageId → Io W (InboxError E) (Unit {0})
  unclaim conn consumer id = map_err from_sqlx (
      q.execute conn unclaim_sql (Bind.text consumer.as_str ∷ Bind.text id.as_str ∷ []) >>= λ _.
      pure tt)

  -- `impl Savepoints for PgInbox`
  abbrev pub pg_savepoints : (fuel : ℕ) → Savepoints (pg_inbox fuel)
  pg_savepoints fuel = record {
    savepoint = λ conn. execute q conn savepoint_sql;
    release_and_savepoint = λ conn. execute q conn release_and_savepoint_sql;
    release = λ conn. execute q conn release_sql;
    rollback_to = λ conn. execute q conn rollback_to_sql;
    unclaim = unclaim;
  }
