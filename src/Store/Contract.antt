-- ===== src/Store/Contract.antt =====
-- What the documentation of `trait InboxStore` and `trait Savepoints` asks of a backend: committed
-- contents, the contents that a connection sees inside its transaction, and what each method does
-- to both. No other transaction commits in between.
use txbox.Common.{
  Option, some, Bool, false, ◌&&◌, ◌||◌, ◌≡◌, ◌⊎◌, List, [], ◌∷◌, map, if◌then◌else◌, ◌==◌,
  contains, All, Ordering,
}
use txbox.Str.{cmp}
use txbox.Io.Triple.{Triple}
use txbox.Store.{InboxStore, Savepoints}
use txbox.Types.{
  Claim, ClaimBatch, ClaimRequest, ConsumerId, MessageId, message_id_eq, consumer_id_eq,
}

-- The contents of a database: which messages each consumer has recorded, and all else (`App`, the
-- application's own tables). Ids are equal when their texts are, byte for byte.
pub record Db (App : Type 0) : Type 0 where
  pub row : ConsumerId → MessageId → Bool
  pub app : App

module _ {App : Type 0} where
  -- The answer to a claim: new exactly if no row is there.
  abbrev pub answer : ConsumerId → Db App → MessageId → Claim
  answer c d m = if d.row c m then Claim.duplicate else Claim.fresh

  -- The contents with a row for each of the ids.
  abbrev pub add_all : ConsumerId → List MessageId → Db App → Db App
  add_all c ids d = record d { row = λ k m. d.row k m || (k == c && contains ids m) }

  abbrev pub add : ConsumerId → MessageId → Db App → Db App
  add c m d = add_all c (m ∷ []) d

  -- One claim after the other, each on what the earlier ones left.
  abbrev pub claim_each : ConsumerId → List MessageId → Db App → List Claim
  claim_each c [] v = []
  claim_each c (m ∷ ms) v = answer c v m ∷ claim_each c ms (add c m v)

  abbrev pub remove : ConsumerId → MessageId → Db App → Db App
  remove c m d = record d { row = λ k n. if k == c && n == m then false else d.row k n }

-- Unique and sorted by bytes.
abbrev pub IsAscending : List MessageId → Type 0
IsAscending [] = Unit
IsAscending (m ∷ ms) = All (λ n. cmp m.as_str n.as_str ≡ Ordering.lt) ms × IsAscending ms

pub record Contract {W E : Type 0} (s : InboxStore W E) (App : Type 0) : Type 1 where
  pub committed : W → Db App
  pub seen : s.Conn → W → Db App
  pub begin_lem :
      (d : Db App)
      → Triple
          (λ w. committed w ≡ d)
          s.begin
          (λ tx w. (committed w ≡ d) × (seen (s.conn tx) w ≡ d))
          (λ _ w. committed w ≡ d)
  -- A commit that reports an error may have gone through, as a whole.
  pub commit_lem :
      (tx : s.Tx) (d v : Db App)
      → Triple
          (λ w. (committed w ≡ d) × (seen (s.conn tx) w ≡ v))
          (s.commit tx)
          (λ _ w. committed w ≡ v)
          (λ _ w. (committed w ≡ d) ⊎ (committed w ≡ v))
  pub rollback_lem :
      (tx : s.Tx) (d : Db App)
      → Triple
          (λ w. committed w ≡ d)
          (s.rollback tx)
          (λ _ w. committed w ≡ d)
          (λ _ w. committed w ≡ d)
  pub drop_lem : (tx : s.Tx) (w : W) → committed (s.drop tx w) ≡ committed w
  pub claim_lem :
      (c : s.Conn) (r : ClaimRequest) (d v : Db App)
      → Triple
          (λ w. (committed w ≡ d) × (seen c w ≡ v))
          (s.claim c r)
          (λ k w.
            (committed w ≡ d) × (seen c w ≡ add r.consumer r.id v) × (k ≡ answer r.consumer v r.id))
          (λ _ w. committed w ≡ d)
  pub claim_many_lem :
      (c : s.Conn) (b : ClaimBatch) (d v : Db App)
      → IsAscending b.ids
      → Triple
          (λ w. (committed w ≡ d) × (seen c w ≡ v))
          (s.claim_many c b)
          (λ ks w.
            (committed w ≡ d)
            × (seen c w ≡ add_all b.consumer b.ids v)
            × (ks ≡ map (answer b.consumer v) b.ids))
          (λ _ w. committed w ≡ d)

-- The contract of the savepoint that the library owns: what it would roll back to, while open.
pub record SavepointContract {W E : Type 0} (s : InboxStore W E) (p : Savepoints s) (App : Type 0)
    (k : Contract s App) : Type 0 where
  pub marked : s.Conn → W → Option (Db App)
  pub savepoint_lem :
      (c : s.Conn) (d v : Db App)
      → Triple
          (λ w. (k.committed w ≡ d) × (k.seen c w ≡ v))
          (p.savepoint c)
          (λ _ w. (k.committed w ≡ d) × (k.seen c w ≡ v) × (marked c w ≡ some v))
          (λ _ w. k.committed w ≡ d)
  pub release_and_savepoint_lem :
      (c : s.Conn) (d u v : Db App)
      → Triple
          (λ w. (k.committed w ≡ d) × (k.seen c w ≡ v) × (marked c w ≡ some u))
          (p.release_and_savepoint c)
          (λ _ w. (k.committed w ≡ d) × (k.seen c w ≡ v) × (marked c w ≡ some v))
          (λ _ w. k.committed w ≡ d)
  pub release_lem :
      (c : s.Conn) (d u v : Db App)
      → Triple
          (λ w. (k.committed w ≡ d) × (k.seen c w ≡ v) × (marked c w ≡ some u))
          (p.release c)
          (λ _ w. (k.committed w ≡ d) × (k.seen c w ≡ v))
          (λ _ w. k.committed w ≡ d)
  pub rollback_to_lem :
      (c : s.Conn) (d u v : Db App)
      → Triple
          (λ w. (k.committed w ≡ d) × (k.seen c w ≡ v) × (marked c w ≡ some u))
          (p.rollback_to c)
          (λ _ w. (k.committed w ≡ d) × (k.seen c w ≡ u) × (marked c w ≡ some u))
          (λ _ w. k.committed w ≡ d)
  pub unclaim_lem :
      (c : s.Conn) (i : ConsumerId) (m : MessageId) (d u v : Db App)
      → Triple
          (λ w. (k.committed w ≡ d) × (k.seen c w ≡ v) × (marked c w ≡ some u))
          (p.unclaim c i m)
          (λ _ w. (k.committed w ≡ d) × (k.seen c w ≡ remove i m v) × (marked c w ≡ some u))
          (λ _ w. k.committed w ≡ d)
