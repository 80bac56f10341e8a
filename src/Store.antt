-- ===== src/Store.antt =====
-- src/store.rs: the interface of a backend, and the methods that it may leave to their defaults.
pub mod Contract
pub mod Reliable
pub mod Defaults
use txbox.Common.{ℕ, Bool, false, List, [], ◌∷◌}
use txbox.Error.{InboxError}
use txbox.Io.{Io, pure, ◌>>=◌}
use txbox.Retention.{RetentionPolicy}
use txbox.Types.{Claim, ClaimBatch, ClaimRequest, claim_request, ConsumerId, MessageId}

-- `trait InboxStore`. A connection and a transaction are handles into the world; `drop` is what
-- leaving the scope does to a transaction that was not committed.
pub record InboxStore (W E : Type 0) : Type 1 where
  pub Conn : Type 0
  pub Tx : Type 0
  pub conn : Tx → Conn
  pub drop : Tx → W → W
  pub begin : Io W (InboxError E) Tx
  pub commit : Tx → Io W (InboxError E) (Unit {0})
  pub rollback : Tx → Io W (InboxError E) (Unit {0})
  pub claim : Conn → ClaimRequest → Io W (InboxError E) Claim
  pub claim_many : Conn → ClaimBatch → Io W (InboxError E) (List Claim)
  pub is_known_duplicate : ConsumerId → MessageId → Io W (InboxError E) Bool
  pub purge : RetentionPolicy → Io W (InboxError E) ℕ

-- `trait Savepoints`
pub record Savepoints {W E : Type 0} (s : InboxStore W E) : Type 1 where
  pub savepoint : s.Conn → Io W (InboxError E) (Unit {0})
  pub release_and_savepoint : s.Conn → Io W (InboxError E) (Unit {0})
  pub release : s.Conn → Io W (InboxError E) (Unit {0})
  pub rollback_to : s.Conn → Io W (InboxError E) (Unit {0})
  pub unclaim : s.Conn → ConsumerId → MessageId → Io W (InboxError E) (Unit {0})

module _ {W E : Type 0} where
  -- The default `rollback` drops the transaction.
  unfoldable pub default_rollback :
      {Tx : Type 0} → (Tx → W → W) → Tx → Io W (InboxError E) (Unit {0})
  default_rollback drop tx w = pure tt (drop tx w)

  -- The loop of the default `claim_many`: one `claim` per id, in order.
  unfoldable pub claim_in_order :
      {Conn : Type 0}
      → (Conn → ClaimRequest → Io W (InboxError E) Claim)
      → Conn
      → ClaimBatch
      → List MessageId
      → Io W (InboxError E) (List Claim)
  claim_in_order claim conn batch [] = pure []
  claim_in_order claim conn batch (id ∷ ids) = do
    k ← claim conn (record (claim_request batch.consumer id) { lock_timeout = batch.lock_timeout })
    claims ← claim_in_order claim conn batch ids
    pure (k ∷ claims)

  unfoldable pub default_claim_many :
      {Conn : Type 0}
      → (Conn → ClaimRequest → Io W (InboxError E) Claim)
      → Conn
      → ClaimBatch
      → Io W (InboxError E) (List Claim)
  unfolding claim_in_order
  default_claim_many claim conn batch = claim_in_order claim conn batch batch.ids

  -- The default answer: unknown.
  unfoldable pub default_is_known_duplicate : ConsumerId → MessageId → Io W (InboxError E) Bool
  default_is_known_duplicate consumer id = pure false
