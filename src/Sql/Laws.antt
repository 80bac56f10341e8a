-- ===== src/Sql/Laws.antt =====
-- What a transactional SQL database does with the calls that every backend makes of sqlx: beginning
-- and ending transactions, and the savepoint statements of src/sql.rs.
use Prim.Native.String.{String}
use txbox.Common.{
  not, ◌≡◌, ◌⊎◌, refl, Option, some, List, [], ◌∷◌, map, arith, All, contains, if◌then◌else◌, ℕ,
}
use txbox.Error.{from_sqlx}
use txbox.Io.{Io, map_err}
use txbox.Io.Triple.{Triple, Triple-map_err}
use txbox.Sql.{
  claims_from_fresh, claim_of_affected, execute, savepoint_sql, release_and_savepoint_sql,
  release_sql, rollback_to_sql,
}
use txbox.Sqlx.{Driver}
use txbox.Store.Contract.{Db, answer}
use txbox.Str.{Str, str_eq}
use txbox.Types.{ConsumerId, MessageId}

-- `begin` is the call that opens a transaction on this backend.
pub record Transactions {W E : Type 0} (q : Driver W E) (begin : Io W E q.Tx) (App : Type 0)
    : Type 1 where
  pub committed : W → Db App
  pub seen : q.Conn → W → Db App
  pub marked : q.Conn → W → Option (Db App)
  pub begin_lem :
      (d : Db App)
      → Triple
          (λ w. committed w ≡ d)
          begin
          (λ tx w. (committed w ≡ d) × (seen (q.conn tx) w ≡ d))
          (λ _ w. committed w ≡ d)
  pub commit_lem :
      (tx : q.Tx) (d v : Db App)
      → Triple
          (λ w. (committed w ≡ d) × (seen (q.conn tx) w ≡ v))
          (q.commit tx)
          (λ _ w. committed w ≡ v)
          (λ _ w. (committed w ≡ d) ⊎ (committed w ≡ v))
  pub rollback_lem :
      (tx : q.Tx) (d : Db App)
      → Triple
          (λ w. committed w ≡ d)
          (q.rollback tx)
          (λ _ w. committed w ≡ d)
          (λ _ w. committed w ≡ d)
  pub drop_lem : (tx : q.Tx) (w : W) → committed (q.drop tx w) ≡ committed w
  pub savepoint_lem :
      (c : q.Conn) (d v : Db App)
      → Triple
          (λ w. (committed w ≡ d) × (seen c w ≡ v))
          (q.raw_sql c savepoint_sql)
          (λ _ w. (committed w ≡ d) × (seen c w ≡ v) × (marked c w ≡ some v))
          (λ _ w. committed w ≡ d)
  pub release_and_savepoint_lem :
      (c : q.Conn) (d u v : Db App)
      → Triple
          (λ w. (committed w ≡ d) × (seen c w ≡ v) × (marked c w ≡ some u))
          (q.raw_sql c release_and_savepoint_sql)
          (λ _ w. (committed w ≡ d) × (seen c w ≡ v) × (marked c w ≡ some v))
          (λ _ w. committed w ≡ d)
  pub release_lem :
      (c : q.Conn) (d u v : Db App)
      → Triple
          (λ w. (committed w ≡ d) × (seen c w ≡ v) × (marked c w ≡ some u))
          (q.raw_sql c release_sql)
          (λ _ w. (committed w ≡ d) × (seen c w ≡ v))
          (λ _ w. committed w ≡ d)
  pub rollback_to_lem :
      (c : q.Conn) (d u v : Db App)
      → Triple
          (λ w. (committed w ≡ d) × (seen c w ≡ v) × (marked c w ≡ some u))
          (q.raw_sql c rollback_to_sql)
          (λ _ w. (committed w ≡ d) × (seen c w ≡ u) × (marked c w ≡ some u))
          (λ _ w. committed w ≡ d)

-- An error that is only wrapped changes nothing of what the action ensures.
module _ {W E F A : Type 0} {P : W → Type 0} {Q : A → W → Type 0} {R : W → Type 0} where
  pub Triple-wrapped :
      {m : Io W E A} (f : E → F) → Triple P m Q (λ _. R) → Triple P (map_err f m) Q (λ _. R)
  Triple-wrapped f t = Triple-map_err f t (λ e w h. h) (λ w h. h)

module _ {W E : Type 0} (q : Driver W E) where
  pub execute_triple :
      {P : W → Type 0} {Q : Unit {0} → W → Type 0} {R : W → Type 0} {conn : q.Conn} {sql : String}
      → Triple P (q.raw_sql conn sql) Q (λ _. R)
      → Triple P (execute q conn sql) Q (λ _. R)
  unfolding execute
  execute_triple t = Triple-wrapped from_sqlx t

-- The ids that an insert reports back are the ones that had no row.
abbrev pub ReportsFresh : {App : Type 0} → ConsumerId → Db App → List MessageId → List Str → Type 0
ReportsFresh c v ids fresh = All (λ m. contains fresh m.as_str ≡ not (v.row c m)) ids

-- Then `claims_from_fresh` gives each id the answer to its claim.
pub claims_from_fresh-answer :
    {App : Type 0} (c : ConsumerId) (v : Db App) (ids : List MessageId) (fresh : List Str)
    → ReportsFresh c v ids fresh
    → claims_from_fresh (map (λ (m : MessageId). m.as_str) ids) fresh ≡ map (answer c v) ids
unfolding claims_from_fresh
claims_from_fresh-answer c v [] fresh h = refl
claims_from_fresh-answer c v (m ∷ ids) fresh h =
    ground (arith, h.0, claims_from_fresh-answer c v ids fresh h.1)

-- An insert that affects a row only where there was none answers the claim.
pub affected-answer :
    {App : Type 0} (c : ConsumerId) (m : MessageId) (v : Db App) (affected : ℕ)
    → affected ≡ (if v.row c m then 0 else 1)
    → claim_of_affected affected ≡ answer c v m
unfolding claim_of_affected
affected-answer c m v affected h = ground arith
