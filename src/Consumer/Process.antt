-- ===== src/Consumer/Process.antt =====
-- `Consumer::process` over a backend that keeps its contract: a message is handled and recorded, or
-- nothing is committed.
use txbox.Common.{Option, true, false, ◌≡◌, ◌⊎◌, inl, inr, refl, ◌∙◌, sym, subst, arith}
use txbox.Consumer.{Consumer, claim, settle, on_claim, process}
use txbox.Error.{HandlerError, InboxError}
use txbox.Io.{Io, or_drop, ◌>>=◌}
use txbox.Io.Triple.{
  Triple, Attempted, Triple-absurd, Triple-pure, Triple-throw, Triple-mono, Triple-bind,
  Triple-attempt, Triple-or_drop,
}
use txbox.Result.{Result, ok, err}
use txbox.Store.Contract.{Contract, Db, add, answer}
use txbox.Types.{Claim, claim_request, MessageId, Outcome}

-- A handler works on the connection that it is given, so it commits nothing by itself; when it
-- succeeds, it has turned the contents that the connection sees as `Post` says.
pub record HandlerContract {W E App T : Type 0} (c : Consumer W E) (k : Contract c.store App)
    (handler : c.store.Conn → Io W (HandlerError E) T) (Post : Db App → T → Db App → Type 0)
    : Type 0 where
  pub run_lem :
      (conn : c.store.Conn) (d v : Db App)
      → Triple
          (λ w. (k.committed w ≡ d) × (k.seen conn w ≡ v))
          (handler conn)
          (λ value w. (k.committed w ≡ d) × Post v value (k.seen conn w))
          (λ _ w. k.committed w ≡ d)

module _ {W E App : Type 0} (c : Consumer W E) (k : Contract c.store App) where
  -- One claim, through the consumer.
  pub claim_triple :
      (conn : c.store.Conn) (id : MessageId) (d v : Db App)
      → Triple
          (λ w. (k.committed w ≡ d) × (k.seen conn w ≡ v))
          (claim c conn id)
          (λ a w. (k.committed w ≡ d) × (k.seen conn w ≡ add c.id id v) × (a ≡ answer c.id v id))
          (λ _ w. k.committed w ≡ d)
  unfolding claim claim_request
  claim_triple conn id d v = k.claim_lem conn _ d v

  -- A transaction that is left before it is committed leaves the committed contents alone.
  pub guarded :
      {A : Type 0} {P : W → Type 0} {F : Type 0} {m : Io W F A} {Q : A → W → Type 0}
      (tx : c.store.Tx) (d : Db App)
      → Triple P m Q (λ _ w. k.committed w ≡ d)
      → Triple P (or_drop (c.store.drop tx) m) Q (λ _ w. k.committed w ≡ d)
  guarded tx d t = Triple-or_drop (c.store.drop tx) t (λ x w h. k.drop_lem tx w ∙ h)

  begin_and_claim :
      {B : Type 0} {Q : B → W → Type 0} {R : Option (InboxError E) → W → Type 0} (id : MessageId)
      (d : Db App) (next : c.store.Tx → Claim → Io W (InboxError E) B)
      → ((tx : c.store.Tx) (a : Claim)
          → Triple
              (λ w.
                (k.committed w ≡ d)
                × (k.seen (c.store.conn tx) w ≡ add c.id id d)
                × (a ≡ answer c.id d id))
              (next tx a)
              Q
              R)
      → ((x : Option (InboxError E)) (w : W) → k.committed w ≡ d → R x w)
      → Triple
          (λ w. k.committed w ≡ d)
          (c.store.begin >>= λ tx.
            or_drop (c.store.drop tx) (claim c (c.store.conn tx) id) >>= λ a. next tx a)
          Q
          R
  begin_and_claim id d next rest early =
      Triple-bind (Triple-mono (k.begin_lem d) (λ w h. h) (λ a w h. h) early) (λ tx.
        Triple-bind
          (Triple-mono (guarded tx d (claim_triple (c.store.conn tx) id d d)) (λ w h. h)
            (λ a w h. h) early)
          (λ a. rest tx a))

  on_duplicate :
      {T : Type 0} (tx : c.store.Tx) (handler : c.store.Conn → Io W (HandlerError E) T) (d : Db App)
      → Triple
          (λ w. k.committed w ≡ d)
          (on_claim c tx handler Claim.duplicate)
          (λ o w. (o ≡ Outcome.duplicate) × (k.committed w ≡ d))
          (λ _ w. k.committed w ≡ d)
  unfolding on_claim
  on_duplicate tx handler d =
      Triple-bind (k.rollback_lem tx d) (λ _. Triple-pure _ (λ w h. (refl, h)))

  -- A message that is already recorded is a duplicate. Nothing is committed, however the call ends;
  -- nothing is asked of the handler.
  pub process-duplicate_triple :
      {T : Type 0} (id : MessageId) (handler : c.store.Conn → Io W (HandlerError E) T) (d : Db App)
      → d.row c.id id ≡ true
      → Triple
          (λ w. k.committed w ≡ d)
          (process c id handler)
          (λ o w. (o ≡ Outcome.duplicate) × (k.committed w ≡ d))
          (λ _ w. k.committed w ≡ d)
  unfolding process
  process-duplicate_triple id handler d known =
      begin_and_claim id d (λ tx. on_claim c tx handler)
        (λ tx. elim [
          | Claim.fresh ↦ Triple-absurd (λ w h. ground arith)
          | Claim.duplicate ↦
              Triple-mono (on_duplicate tx handler d) (λ w h. h.0) (λ o w h. h) (λ x w h. h)
        ])
        (λ x w h. h)

-- What `process` leaves of a message that was not recorded, if it does not return: the contents as
-- they were, or, should the commit have gone through although it reported an error, the message
-- recorded with all that its handler did.
abbrev pub AllOrNothing :
    {App T : Type 0} → (Db App → T → Db App → Type 0) → Db App → Db App → Db App → Type 0
AllOrNothing {T} Post d v d' = (d' ≡ d) ⊎ ((value : T) × Post v value d')

module _ {W E App T : Type 0} (c : Consumer W E) (k : Contract c.store App)
    (Post : Db App → T → Db App → Type 0) where
  pub commit_post :
      (tx : c.store.Tx) (d v : Db App) (value : T)
      → Triple
          (λ w. (k.committed w ≡ d) × Post v value (k.seen (c.store.conn tx) w))
          (c.store.commit tx)
          (λ _ w. Post v value (k.committed w))
          (λ _ w. AllOrNothing Post d v (k.committed w))
  commit_post tx d v value = record {
    at = λ w h.
        let here = k.seen (c.store.conn tx) w in
        let done =
          Triple-mono {Q' = λ _ w'. Post v value (k.committed w')}
            {R' = λ _ w'. AllOrNothing Post d v (k.committed w')} (k.commit_lem tx d here)
            (λ w' p. p) (λ _ w' e. subst (Post v value) (sym e) h.1)
            (λ _ w' e. elim e [
              | inl same ↦ inl same
              | inr through ↦ inr (value, subst (Post v value) (sym through) h.1)
            ]) in
        done.at w (h.0, refl);
  }

  settle_triple :
      (tx : c.store.Tx) (d v : Db App) (r : Result (HandlerError E) T)
      → Triple
          (Attempted
            (λ value w. (k.committed w ≡ d) × Post v value (k.seen (c.store.conn tx) w))
            (λ _ w. k.committed w ≡ d)
            r)
          (settle c tx r)
          (λ o w. (value : T) × (o ≡ Outcome.processed value) × Post v value (k.committed w))
          (λ _ w. AllOrNothing Post d v (k.committed w))
  unfolding settle
  settle_triple tx d v (ok value) =
      Triple-bind (commit_post tx d v value)
        (λ _. Triple-pure (Outcome.processed value) (λ w h. (value, refl, h)))
  settle_triple tx d v (err e) =
      Triple-bind {Q = λ _ w. k.committed w ≡ d}
        (Triple-mono (Triple-attempt (k.rollback_lem tx d) (λ w h. h)) (λ w h. h)
          (elim [ ok _ ↦ λ w h. h | err _ ↦ λ w h. h ]) (λ x w h. inl h))
        (λ _. Triple-throw (InboxError.handler e) (λ w h. inl h))

  module _ (handler : c.store.Conn → Io W (HandlerError E) T)
      (hk : HandlerContract c k handler Post) where
    on_fresh :
        (tx : c.store.Tx) (d v : Db App)
        → Triple
            (λ w. (k.committed w ≡ d) × (k.seen (c.store.conn tx) w ≡ v))
            (on_claim c tx handler Claim.fresh)
            (λ o w. (value : T) × (o ≡ Outcome.processed value) × Post v value (k.committed w))
            (λ _ w. AllOrNothing Post d v (k.committed w))
    unfolding on_claim
    on_fresh tx d v =
        Triple-bind
          (Triple-mono
            (guarded c k tx d (Triple-attempt (hk.run_lem (c.store.conn tx) d v) (λ w h. h)))
            (λ w h. h) (λ r w h. h) (λ x w h. inl h))
          (λ r. settle_triple tx d v r)

    -- A message that is not recorded yet: if `process` returns, the handler's success is the outcome,
    -- and the committed contents are what the handler made of the contents with the message
    -- recorded. If it does not, by an error of the handler or the backend, a panic or a
    -- cancellation at any await, the committed contents are unchanged, or the commit went through
    -- as a whole.
    pub process-fresh_triple :
        (id : MessageId) (d : Db App)
        → d.row c.id id ≡ false
        → Triple
            (λ w. k.committed w ≡ d)
            (process c id handler)
            (λ o w.
              (value : T) × (o ≡ Outcome.processed value)
              × Post (add c.id id d) value (k.committed w))
            (λ _ w. AllOrNothing Post d (add c.id id d) (k.committed w))
    unfolding process
    process-fresh_triple id d new =
        begin_and_claim c k id d (λ tx. on_claim c tx handler)
          (λ tx. elim [
            | Claim.fresh ↦
                Triple-mono (on_fresh tx d (add c.id id d)) (λ w h. (h.0, h.1)) (λ o w h. h)
                  (λ x w h. h)
            | Claim.duplicate ↦ Triple-absurd (λ w h. ground arith)
          ])
          (λ x w h. inl h)
