-- ===== src/Sql.antt =====
-- src/sql.rs, and sqlx with the database behind it as a parameter: what the backends call, and
-- nothing of how it works. The loop of `purge`, which the three backends share word for word.
pub mod Purge
pub mod AgingPurge
pub mod Laws
use Prim.Native.String.{String}
use txbox.Common.{
  ℕ, zero, suc, ◌+◌, ◌%◌, ◌^◌, Bool, true, false, Option, none, some, List, [], ◌∷◌, map, ltb,
  if◌then◌else◌, ◌==◌, contains, nat_eq,
}
use txbox.Error.{InboxError, from_sqlx}
use txbox.Io.{Io, pure, panic, map_err, ◌>>=◌, ◌>>◌}
use txbox.Sqlx.{Driver}
use txbox.Str.{Str, str_eq}
use txbox.Types.{Claim}

abbrev pub savepoint_sql : String
savepoint_sql = "SAVEPOINT txbox_process_many"

abbrev pub release_and_savepoint_sql : String
release_and_savepoint_sql = "RELEASE SAVEPOINT txbox_process_many; SAVEPOINT txbox_process_many"

abbrev pub release_sql : String
release_sql = "RELEASE SAVEPOINT txbox_process_many"

abbrev pub rollback_to_sql : String
rollback_to_sql = "ROLLBACK TO SAVEPOINT txbox_process_many"

-- One claim per id, in order: `Fresh` for the ids that the insert reported back.
unfoldable pub claims_from_fresh : List Str → List Str → List Claim
claims_from_fresh ids fresh =
    map (λ id. if contains fresh id then Claim.fresh else Claim.duplicate) ids

-- The answer to a claim, by the rows that the insert affected.
unfoldable pub claim_of_affected : ℕ → Claim
claim_of_affected affected = if affected == 1 then Claim.fresh else Claim.duplicate

module _ {W E : Type 0} (q : Driver W E) where
  -- `sql::execute`
  unfoldable pub execute : q.Conn → String → Io W (InboxError E) (Unit {0})
  execute conn sql = map_err from_sqlx (q.raw_sql conn sql)

-- The loop of `purge` in src/sqlite.rs, which src/postgres.rs and src/mysql.rs write in the same way:
-- `statement` deletes at most `batch` rows and says how many. `total` is a `u64`, whose sum wraps as in
-- a build without overflow checks; one with them panics there. The loop has no bound of its own; `fuel` bounds it here, and running out of it is a call
-- that never returns.
module _ {W F : Type 0} (statement : Io W F ℕ) (batch : ℕ) where
  unfoldable pub purge_loop : ℕ → ℕ → Io W F ℕ
  purge_loop zero total = panic
  purge_loop (suc fuel) total = do
    affected ← statement
    let sum = (total + affected) % 2 ^ 64
    let again = purge_loop fuel sum
    if ltb affected batch then pure sum else again
