-- ===== src/Consumer/Returns.antt =====
-- When `Consumer` returns: over a backend whose calls return, each method does.
use txbox.Common.{◌⊎◌, inl, inr, Option, none, some}
use txbox.Consumer.{Consumer, claim, settle, on_claim, process}
use txbox.Error.{HandlerError, InboxError}
use txbox.Io.{Io, or_drop}
use txbox.Io.Triple.{
  Triple, Attempted, Triple-pure, Triple-throw, Triple-mono, Triple-fact, Triple-bind,
  Triple-attempt, Triple-or_drop,
}
use txbox.Result.{Result, ok, err}
use txbox.Store.Reliable.{Returns, Reliable}
use txbox.Types.{Claim, MessageId, Outcome}

-- A handler may fail, which shows `Failing`; it stops only if `Faulty`.
abbrev pub HandlerFault : {E : Type 0} → Type 0 → Type 0 → Option (HandlerError E) → Type 0
HandlerFault Failing Faulty none = Faulty
HandlerFault Failing Faulty (some e) = Failing

-- `process` fails as the handler did, or else the backend is `Faulty`.
abbrev pub HandlerFailed : {E : Type 0} → Type 0 → Option (InboxError E) → Type 0
HandlerFailed Failing none = ⊥
HandlerFailed Failing (some (InboxError.handler e)) = Failing
HandlerFailed Failing (some (InboxError.backend e)) = ⊥
HandlerFailed Failing (some InboxError.contended) = ⊥
HandlerFailed Failing (some (InboxError.invalid_id e)) = ⊥

pub failing_of :
    {E Failing : Type 0} (x : Option (InboxError E)) → HandlerFailed Failing x → Failing
failing_of none h = absurd h
failing_of (some (InboxError.handler e)) h = h
failing_of (some (InboxError.backend e)) h = absurd h
failing_of (some InboxError.contended) h = absurd h
failing_of (some (InboxError.invalid_id e)) h = absurd h

abbrev pub HandlerReturns : {W E T : Type 0} → Type 0 → Type 0 → Io W (HandlerError E) T → Type 0
HandlerReturns {W} Failing Faulty m =
    Triple (λ _. Unit {0}) m (λ _ _. Unit {0}) (λ x _. HandlerFault Failing Faulty x)

module _ {W E : Type 0} (c : Consumer W E) (Failing Faulty : Type 0)
    (f : Reliable c.store Faulty) where
  pub claim-Returns : (conn : c.store.Conn) (id : MessageId) → Returns Faulty (claim c conn id)
  unfolding claim
  claim-Returns conn id = f.claim_lem conn _

  -- Dropping the transaction of a call that does not return is not a return.
  guarded :
      {A F : Type 0} {m : Io W F A} {Q : A → W → Type 0} {R : Option F → Type 0} (tx : c.store.Tx)
      → Triple (λ _. Unit {0}) m Q (λ x _. R x)
      → Triple (λ _. Unit {0}) (or_drop (c.store.drop tx) m) Q (λ x _. R x)
  guarded tx t = Triple-or_drop (c.store.drop tx) t (λ x w h. h)

  abbrev Ended : {A : Type 0} → Io W (InboxError E) A → Type 0
  Ended m = Triple (λ _. Unit {0}) m (λ _ _. Unit {0}) (λ x _. Faulty ⊎ HandlerFailed Failing x)

  store_call : {A : Type 0} {m : Io W (InboxError E) A} → Returns Faulty m → Ended m
  store_call t = Triple-mono t (λ w h. h) (λ a w h. h) (λ x w h. inl h)

  module _ {T : Type 0} where
    settle-Ended :
        (tx : c.store.Tx) (r : Result (HandlerError E) T)
        → Triple
            (Attempted {W = W} (λ _ _. Unit {0}) (λ x _. HandlerFault Failing Faulty x) r)
            (settle c tx r)
            (λ _ _. Unit {0})
            (λ x _. Faulty ⊎ HandlerFailed Failing x)
    unfolding settle
    settle-Ended tx (ok value) =
        Triple-bind
          (Triple-mono (store_call (f.commit_lem tx)) (λ w h. tt) (λ a w h. h) (λ x w h. h))
          (λ _. Triple-pure (Outcome.processed value) (λ w h. tt))
    settle-Ended tx (err e) =
        Triple-bind {Q = λ _ _. Failing}
          (Triple-fact (λ w h. h)
            (λ failing.
              Triple-mono
                (Triple-attempt {R' = λ x _. Faulty ⊎ HandlerFailed Failing x} (f.rollback_lem tx)
                  (λ w h. inl h))
                (λ w h. tt) (elim [ ok _ ↦ λ w h. failing | err _ ↦ λ w h. failing ]) (λ x w h. h)))
          (λ _. Triple-throw (InboxError.handler e) (λ w h. inr h))

    on_claim-Ended :
        (tx : c.store.Tx) (handler : c.store.Conn → Io W (HandlerError E) T) (k : Claim)
        → HandlerReturns Failing Faulty (handler (c.store.conn tx))
        → Ended (on_claim c tx handler k)
    unfolding on_claim
    on_claim-Ended tx handler Claim.duplicate h =
        Triple-bind (store_call (f.rollback_lem tx))
          (λ _. Triple-pure Outcome.duplicate (λ w h. tt))
    on_claim-Ended tx handler Claim.fresh h =
        Triple-bind (guarded tx (Triple-attempt h (λ w p. inl p))) (λ r. settle-Ended tx r)

    pub process-Ended :
        (id : MessageId) (handler : c.store.Conn → Io W (HandlerError E) T)
        → ((conn : c.store.Conn) → HandlerReturns Failing Faulty (handler conn))
        → Triple
            (λ _. Unit {0})
            (process c id handler)
            (λ _ _. Unit {0})
            (λ x _. Faulty ⊎ HandlerFailed Failing x)
    unfolding process
    process-Ended id handler h = Triple-bind (store_call f.begin_lem) (λ tx.
        Triple-bind (store_call (guarded tx (claim-Returns (c.store.conn tx) id)))
          (λ k. on_claim-Ended tx handler k (h (c.store.conn tx))))

module _ {W E T : Type 0} (c : Consumer W E) (Faulty : Type 0) (f : Reliable c.store Faulty) where
  -- With a handler that returns, `process` does, unless the backend or the handler is `Faulty`.
  pub process-Returns :
      (id : MessageId) (handler : c.store.Conn → Io W (HandlerError E) T)
      → ((conn : c.store.Conn) → Returns Faulty (handler conn))
      → Returns Faulty (process c id handler)
  process-Returns id handler h =
      Triple-mono
        (process-Ended c Faulty Faulty f id handler (λ conn.
          Triple-mono (h conn) (λ w p. p) (λ a w p. p)
            (elim [ none ↦ λ w p. p | some e ↦ λ w p. p ])))
        (λ w p. p) (λ a w p. p) (λ x w p. elim p [ inl e ↦ e | inr e ↦ failing_of x e ])
