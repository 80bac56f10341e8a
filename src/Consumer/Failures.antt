-- ===== src/Consumer/Failures.antt =====
-- `Consumer::process` of a message whose handler fails.
use txbox.Common.{Option, none, some, false, ◌≡◌, ◌⊎◌, inl, inr, refl, ◌∙◌, arith}
use txbox.Consumer.{Consumer, claim, settle, on_claim, process}
use txbox.Error.{HandlerError, InboxError}
use txbox.Io.{Io, or_drop}
use txbox.Io.Triple.{
  Triple, Attempted, Gives, Triple-absurd, Triple-and, Triple-fact, Triple-throw, Triple-mono,
  Triple-bind, Triple-attempt, Triple-or_drop,
}
use txbox.Result.{Result, ok, err}
use txbox.Store.Contract.{Contract, Db}
use txbox.Store.Reliable.{Returns}
use txbox.Types.{Claim, ClaimRequest, claim_request, MessageId}

-- How a handler ends that never succeeds: with an error that `Fails` allows, or it stops, which shows
-- `Faulty`.
abbrev pub FailsWith :
    {E : Type 0} → (HandlerError E → Type 0) → Type 0 → Option (HandlerError E) → Type 0
FailsWith Fails Faulty none = Faulty
FailsWith Fails Faulty (some e) = Fails e

-- A handler that never succeeds, and commits nothing by itself.
pub record FailingHandler {W E App T : Type 0} (c : Consumer W E) (k : Contract c.store App)
    (handler : c.store.Conn → Io W (HandlerError E) T) (Fails : HandlerError E → Type 0)
    (Faulty : Type 0) : Type 0 where
  pub run_lem :
      (conn : c.store.Conn) (d : Db App)
      → Triple
          (λ w. k.committed w ≡ d)
          (handler conn)
          (λ _ _. ⊥)
          (λ x w. (k.committed w ≡ d) × FailsWith Fails Faulty x)

-- Beginning and claiming return, unless `Faulty`; the rollback may return an error, and stops only if
-- `Faulty`.
pub record ClaimsAndRollsBack {W E : Type 0} (c : Consumer W E) (Faulty : Type 0) : Type 0 where
  pub begin_lem : Returns Faulty c.store.begin
  pub claim_lem : (conn : c.store.Conn) (r : ClaimRequest) → Returns Faulty (c.store.claim conn r)
  pub rollback_lem :
      (tx : c.store.Tx)
      → Triple (λ _. Unit {0}) (c.store.rollback tx) (λ _ _. Unit {0}) (λ x _. x ≡ none → Faulty)

-- `process` reports an error of the handler's.
abbrev HandlerErrorOf :
    {E : Type 0} → (HandlerError E → Type 0) → Type 0 → Option (InboxError E) → Type 0
HandlerErrorOf {E} Fails Faulty x =
    ((e : HandlerError E) × (x ≡ some (InboxError.handler e)) × Fails e) ⊎ Faulty

module _ {W E App T : Type 0} (c : Consumer W E) (k : Contract c.store App)
    (Fails : HandlerError E → Type 0) (Faulty : Type 0) (f : ClaimsAndRollsBack c Faulty)
    (handler : c.store.Conn → Io W (HandlerError E) T)
    (hk : FailingHandler c k handler Fails Faulty) where
  abbrev Unkept : Db App → Option (InboxError E) → W → Type 0
  Unkept d x w = (k.committed w ≡ d) × HandlerErrorOf Fails Faulty x

  -- A call of the backend that returns, unless `Faulty`, and commits nothing.
  kept_call :
      {A : Type 0} {P : W → Type 0} {m : Io W (InboxError E) A} {Q : A → W → Type 0} (d : Db App)
      → Triple P m Q (λ _ w. k.committed w ≡ d)
      → Returns Faulty m
      → Triple P m Q (Unkept d)
  kept_call d t u =
      Triple-mono (Triple-and t (Triple-mono u (λ w h. tt) (λ a w h. h) (λ x w h. h))) (λ w h. h)
        (λ a w h. h.0) (λ x w h. (h.0, inr h.1))

  dropped :
      {A : Type 0} {P : W → Type 0} {m : Io W (InboxError E) A} {Q : A → W → Type 0}
      (tx : c.store.Tx) (d : Db App)
      → Triple P m Q (Unkept d)
      → Triple P (or_drop (c.store.drop tx) m) Q (Unkept d)
  dropped tx d t = Triple-or_drop (c.store.drop tx) t (λ x w h. (k.drop_lem tx w ∙ h.0, h.1))

  settle-failed :
      (tx : c.store.Tx) (d : Db App) (r : Result (HandlerError E) T)
      → Triple
          (Attempted {W = W} (λ _ _. ⊥) (λ x w. (k.committed w ≡ d) × FailsWith Fails Faulty x) r)
          (settle c tx r)
          (λ _ _. ⊥)
          (Unkept d)
  unfolding settle
  settle-failed tx d (ok value) = Triple-absurd (λ w h. h)
  settle-failed tx d (err e) =
      Triple-fact (λ w h. h.1)
        (λ fails.
          Triple-bind {Q = λ _ w. k.committed w ≡ d}
            (Triple-mono
              (Triple-attempt {R' = Unkept d}
                (Triple-and (k.rollback_lem tx d)
                  (Triple-mono (f.rollback_lem tx) (λ w h. tt) (λ a w h. h) (λ x w h. h)))
                (λ w h. (h.0, inr (h.1 refl))))
              (λ w h. h.0) (elim [ ok _ ↦ λ w h. h.0 | err _ ↦ λ w h. h.0 ]) (λ x w h. h))
            (λ _. Triple-throw (InboxError.handler e) (λ w h. (h, inl (e, refl, fails)))))

  on_fresh-failed :
      (tx : c.store.Tx) (d : Db App)
      → Triple (λ w. k.committed w ≡ d) (on_claim c tx handler Claim.fresh) (λ _ _. ⊥) (Unkept d)
  unfolding on_claim
  on_fresh-failed tx d =
      Triple-bind
        (dropped tx d (Triple-attempt (hk.run_lem (c.store.conn tx) d) (λ w h. (h.0, inr h.1))))
        (λ r. settle-failed tx d r)

  process-failing_triple :
      (id : MessageId) (d : Db App)
      → d.row c.id id ≡ false
      → Triple (λ w. k.committed w ≡ d) (process c id handler) (λ _ _. ⊥) (Unkept d)
  unfolding process claim claim_request
  process-failing_triple id d new = Triple-bind (kept_call d (k.begin_lem d) f.begin_lem) (λ tx.
      Triple-bind
        (dropped tx d
          (kept_call d (k.claim_lem (c.store.conn tx) _ d d) (f.claim_lem (c.store.conn tx) _)))
        (elim [
          | Claim.fresh ↦ Triple-mono (on_fresh-failed tx d) (λ w h. h.0) (λ o w h. h) (λ x w h. h)
          | Claim.duplicate ↦ Triple-absurd (λ w h. ground arith)
        ]))

  -- Over a backend that keeps its contract and a handler that never succeeds, on a message that is
  -- not recorded: `process` never returns an outcome, whatever the rollback returns; it fails with
  -- an error of the handler's and leaves the committed contents as they were. Only where beginning
  -- or claiming failed, or a call stopped, may it end otherwise, with the contents unchanged too.
  pub process-failing_handler :
      (id : MessageId) (w : W)
      → (k.committed w).row c.id id ≡ false
      → Gives w
          (process c id handler)
          (λ _ _. ⊥)
          (λ x w'.
            (k.committed w' ≡ k.committed w)
            × (((e : HandlerError E) × (x ≡ some (InboxError.handler e)) × Fails e) ⊎ Faulty))
  process-failing_handler id w new = (process-failing_triple id (k.committed w) new).at w refl
