-- ===== src/Sqlite.antt =====
-- src/sqlite.rs: the backend over SQLite.
pub mod Reliable
pub mod Refines
pub mod Purge
use Prim.Native.String.{String}
use txbox.Common.{
  ℕ, zero, suc, ◌+◌, ◌-◌, ◌*◌, ◌%◌, ◌^◌, Bool, true, false, ◌||◌, ◌&&◌, Option, none, some, List,
  [], ◌∷◌, map, ltb, leb, if◌then◌else◌, ◌==◌, nat_eq,
}
use txbox.Error.{BoxError, InboxError, from_sqlx}
use txbox.Io.{Io, pure, throw, panic, map_err, ◌>>=◌, ◌>>◌}
use txbox.Retention.{RetentionPolicy}
use txbox.Sql.{
  claims_from_fresh, claim_of_affected, execute, purge_loop, savepoint_sql,
  release_and_savepoint_sql, release_sql, rollback_to_sql,
}
use txbox.Sqlx.{Bind, Driver}
use txbox.Store.{InboxStore, Savepoints}
use txbox.Str.{Str}
use txbox.Types.{Claim, ClaimBatch, ClaimRequest, ConsumerId, MessageId}

abbrev pub unclaim_sql : String
unclaim_sql = "DELETE FROM inbox_messages WHERE consumer_id = ? AND message_id = ?"

abbrev pub claim_sql : String
claim_sql =
    "INSERT INTO inbox_messages (consumer_id, message_id, processed_at) VALUES (?, ?, ?) ON CONFLICT (consumer_id, message_id) DO NOTHING"

abbrev pub claim_many_sql : String
claim_many_sql =
    "INSERT INTO inbox_messages (consumer_id, message_id, processed_at) SELECT ?, value, ? FROM json_each(?) WHERE true ON CONFLICT (consumer_id, message_id) DO NOTHING RETURNING message_id"

abbrev pub known_duplicate_sql : String
known_duplicate_sql =
    "SELECT EXISTS ( SELECT 1 FROM inbox_messages WHERE consumer_id = ? AND message_id = ? )"

abbrev pub purge_sql : String
purge_sql =
    "DELETE FROM inbox_messages WHERE rowid IN ( SELECT rowid FROM inbox_messages WHERE processed_at < ? ORDER BY processed_at LIMIT ? )"

-- The value of decimal digits after `n`; `none` at any other character, and for no digits.
parse_digits : ℕ → Str → Option ℕ
parse_digits n [] = some n
parse_digits n (c ∷ s) =
    let rest = parse_digits (n * 10 + (c - 48)) s in if leb 48 c && leb c 57 then rest else none

parse_unsigned : Str → Option ℕ
unfolding parse_digits
parse_unsigned [] = none
parse_unsigned (c ∷ s) = parse_digits 0 (c ∷ s)

-- A value in range, as the bits of an `i32`.
i32_pos : Option ℕ → Option ℕ
i32_pos none = none
i32_pos (some n) = if ltb n (2 ^ 31) then some n else none

i32_neg : Option ℕ → Option ℕ
i32_neg none = none
i32_neg (some n) = if leb n (2 ^ 31) then some ((2 ^ 32 - n) % 2 ^ 32) else none

-- `str::parse::<i32>`
unfoldable pub parse_i32 : Str → Option ℕ
unfolding parse_unsigned i32_pos i32_neg
parse_i32 [] = none
parse_i32 (c ∷ s) =
    if c == b'-'
    then i32_neg (parse_unsigned s)
    else if c == b'+'
    then i32_pos (parse_unsigned s)
    else i32_pos (parse_unsigned (c ∷ s))

-- Whether the code is `SQLITE_BUSY` or `SQLITE_LOCKED`, or extends one: `code & 0xff` is 5 or 6.
unfoldable pub is_busy : Option ℕ → Bool
is_busy none = false
is_busy (some code) = code % 256 == 5 || code % 256 == 6

abbrev code_number : Option Str → Option ℕ
code_number none = none
code_number (some code) = parse_i32 code

module _ {W E : Type 0} (q : Driver W E) where
  unfoldable pub claim_error : E → InboxError E
  unfolding is_busy parse_i32 from_sqlx
  claim_error e = if is_busy (code_number (q.code e)) then InboxError.contended else from_sqlx e

  -- SQLite has no lock timeout: `lock_timeout` is not read.
  unfoldable pub claim : q.Conn → ClaimRequest → Io W (InboxError E) Claim
  claim conn r w =
      (do
        affected ← map_err (claim_error) (
            q.execute conn claim_sql
              (Bind.text r.consumer.as_str ∷ Bind.text r.id.as_str ∷ Bind.time (q.now w) ∷ []))
        pure (claim_of_affected affected))
        w

  pub claim_many : q.Conn → ClaimBatch → Io W (InboxError E) (List Claim)
  claim_many conn b w =
      let ids = map (λ (m : MessageId). m.as_str) b.ids in
      (do
        fresh ← map_err (claim_error) (
            q.fetch_all conn claim_many_sql
              (Bind.text b.consumer.as_str ∷ Bind.time (q.now w) ∷ Bind.json ids ∷ []))
        pure (claims_from_fresh ids fresh))
        w

  pub is_known_duplicate : ConsumerId → MessageId → Io W (InboxError E) Bool
  unfolding from_sqlx
  is_known_duplicate consumer id =
      map_err from_sqlx (
        q.fetch_one_pool known_duplicate_sql (Bind.text consumer.as_str ∷ Bind.text id.as_str ∷ []))

  -- The cutoff is taken once, before the loop. `chrono::Duration::from_std` refuses a duration out of
  -- its range, and `Utc::now() - d` panics where the result is out of `chrono`'s range.
  pub purge : ℕ → RetentionPolicy → Io W (InboxError E) ℕ
  unfolding purge_loop from_sqlx
  purge fuel policy w =
      if ltb q.max_duration policy.max_age
      then throw (InboxError.backend (BoxError.foreign q.out_of_range)) w
      else if ltb (q.now w) policy.max_age
      then panic w
      else purge_loop
          (map_err from_sqlx (
            q.execute_pool purge_sql
              (Bind.time (q.now w - policy.max_age) ∷ Bind.number policy.batch_size ∷ [])))
          policy.batch_size fuel 0 w

  -- `SqliteInbox::migrate`
  unfoldable pub migrate : Io W (InboxError E) (Unit {0})
  migrate = map_err (λ e. InboxError.backend (BoxError.foreign e)) q.run_migrator

  -- `impl InboxStore for SqliteInbox`
  abbrev pub sqlite_inbox : ℕ → InboxStore W E
  sqlite_inbox fuel = record {
    Conn = q.Conn;
    Tx = q.Tx;
    conn = q.conn;
    drop = q.drop;
    begin = map_err from_sqlx q.begin;
    commit = λ tx. map_err from_sqlx (q.commit tx);
    rollback = λ tx. map_err from_sqlx (q.rollback tx);
    claim = claim;
    claim_many = claim_many;
    is_known_duplicate = is_known_duplicate;
    purge = purge fuel;
  }

  unfoldable pub unclaim : q.Conn → ConsumerId → MessageId → Io W (InboxError E) (Unit {0})
  unfolding from_sqlx
  unclaim conn consumer id = map_err from_sqlx (
      q.execute conn unclaim_sql (Bind.text consumer.as_str ∷ Bind.text id.as_str ∷ []) >>= λ _.
      pure tt)

  -- `impl Savepoints for SqliteInbox`
  abbrev pub sqlite_savepoints : (fuel : ℕ) → Savepoints (sqlite_inbox fuel)
  sqlite_savepoints fuel = record {
    savepoint = λ conn. execute q conn savepoint_sql;
    release_and_savepoint = λ conn. execute q conn release_and_savepoint_sql;
    release = λ conn. execute q conn release_sql;
    rollback_to = λ conn. execute q conn rollback_to_sql;
    unclaim = unclaim;
  }
