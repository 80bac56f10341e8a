-- ===== src/Store/Reliable.antt =====
-- When the operations of a backend do not return. `Faulty` is what a call that fails or stops shows:
-- `⊥` for a backend whose calls always return, `Unit` where nothing is known.
use txbox.Common.{Option, some, ◌≡◌}
use txbox.Error.{InboxError}
use txbox.Io.{Io}
use txbox.Io.Triple.{Triple, Triple-and, Triple-mono}
use txbox.Store.{InboxStore, Savepoints}
use txbox.Store.Contract.{Contract, SavepointContract, Db}
use txbox.Types.{ClaimBatch, ClaimRequest, ConsumerId, MessageId}

-- A call that returns, unless `Faulty`.
abbrev pub Returns : {W E A : Type 0} → Type 0 → Io W E A → Type 0
Returns {W} Faulty m = Triple (λ _. Unit {0}) m (λ _ _. Unit {0}) (λ _ _. Faulty)

pub record Reliable {W E : Type 0} (s : InboxStore W E) (Faulty : Type 0) : Type 0 where
  pub begin_lem : Returns Faulty s.begin
  pub commit_lem : (tx : s.Tx) → Returns Faulty (s.commit tx)
  pub rollback_lem : (tx : s.Tx) → Returns Faulty (s.rollback tx)
  pub claim_lem : (conn : s.Conn) (r : ClaimRequest) → Returns Faulty (s.claim conn r)
  pub claim_many_lem : (conn : s.Conn) (b : ClaimBatch) → Returns Faulty (s.claim_many conn b)

-- A call that returns while the savepoint is open, unless `Faulty`.
abbrev pub ReturnsOpen :
    {W E App A : Type 0} {s : InboxStore W E} {p : Savepoints s} {k : Contract s App}
    → SavepointContract s p App k
    → s.Conn
    → Type 0
    → Io W (InboxError E) A
    → Type 0
ReturnsOpen {App} sk conn Faulty m =
    (u : Db App) → Triple (λ w. sk.marked conn w ≡ some u) m (λ _ _. Unit {0}) (λ _ _. Faulty)

pub record ReliableSavepoints {W E App : Type 0} (s : InboxStore W E) (p : Savepoints s)
    (k : Contract s App) (sk : SavepointContract s p App k) (Faulty : Type 0) : Type 0 where
  pub savepoint_lem : (conn : s.Conn) → Returns Faulty (p.savepoint conn)
  pub release_and_savepoint_lem :
      (conn : s.Conn) → ReturnsOpen sk conn Faulty (p.release_and_savepoint conn)
  pub release_lem : (conn : s.Conn) → ReturnsOpen sk conn Faulty (p.release conn)
  pub rollback_to_lem : (conn : s.Conn) → ReturnsOpen sk conn Faulty (p.rollback_to conn)
  pub unclaim_lem :
      (conn : s.Conn) (c : ConsumerId) (m : MessageId)
      → ReturnsOpen sk conn Faulty (p.unclaim conn c m)

module _ {W E A : Type 0} {P : W → Type 0} {Q : A → W → Type 0} {m : Io W E A}
    {R : Option E → W → Type 0} {Faulty : Type 0} where
  -- What the contract says where the call returns, and that else it is `Faulty`.
  pub Triple-Faulty :
      {O : W → Type 0}
      → Triple P m Q R
      → ((w : W) → P w → O w)
      → Triple O m (λ _ _. Unit {0}) (λ _ _. Faulty)
      → Triple P m Q (λ _ _. Faulty)
  Triple-Faulty t pre u =
      Triple-mono (Triple-and t (Triple-mono u pre (λ a w h. h) (λ x w h. h))) (λ w h. h)
        (λ a w h. h.0) (λ x w h. h.1)

  pub Triple-Returns : Triple P m Q R → Returns Faulty m → Triple P m Q (λ _ _. Faulty)
  Triple-Returns t u = Triple-Faulty t (λ w h. tt) u
