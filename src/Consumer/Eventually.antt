-- ===== src/Consumer/Eventually.antt =====
-- A message that is delivered until a delivery returns has its effect, once.
use txbox.Common.{
  ℕ, suc, true, ◌≡◌, inl, inr, refl, ap, ◌∙◌, List, [], ◌∷◌, ◌++◌, arith, All, Bool-cases,
}
use txbox.Consumer.{Consumer, process}
use txbox.Consumer.Process.{HandlerContract, process-duplicate_triple, process-fresh_triple}
use txbox.Consumer.Redelivery.{deliver_all, deliver_all-Once, process-Once, Applies, Once}
use txbox.Consumer.Returns.{process-Returns}
use txbox.Error.{HandlerError}
use txbox.Io.{Io}
use txbox.Io.Triple.{Triple, Triple-mono, Triple-always}
use txbox.Store.Contract.{Contract, Db}
use txbox.Store.Reliable.{Returns, Reliable, Triple-Returns}
use txbox.Types.{MessageId, consumer_id_eq, message_id_eq, consumer_id_beq_iff, message_id_beq_iff}

module _ {W E T : Type 0} (c : Consumer W E) (id : MessageId) where
  deliver_all-append :
      (hs gs : List (c.store.Conn → Io W (HandlerError E) T)) (w : W)
      → deliver_all c id (hs ++ gs) w ≡ deliver_all c id gs (deliver_all c id hs w)
  unfolding deliver_all
  deliver_all-append [] gs w = refl
  deliver_all-append (h ∷ hs) gs w = deliver_all-append hs gs (process c id h w).1

module _ {W E App T : Type 0} (c : Consumer W E) (k : Contract c.store App) (f : Reliable c.store ⊥)
    (id : MessageId) (effects : App → ℕ) (handler : c.store.Conn → Io W (HandlerError E) T)
    (hk : HandlerContract c k handler (Applies effects))
    (returns : (conn : c.store.Conn) → Returns ⊥ (handler conn)) where
  -- A delivery that returns leaves the message recorded.
  recorded :
      Triple
        (λ _. Unit {0})
        (process c id handler)
        (λ _ w. (k.committed w).row c.id id ≡ true)
        (λ _ _. ⊥)
  recorded = record {
    at = λ w _.
        let d = k.committed w in
        let back = process-Returns c ⊥ f id handler returns in
        elim (Bool-cases (d.row c.id id)) [
          | inl known ↦
              let same =
                Triple-mono {Q' = λ _ w'. (k.committed w').row c.id id ≡ true}
                  (Triple-Returns (process-duplicate_triple c k id handler d known)
                    (Triple-mono back (λ w' p. tt) (λ a w' p. p) (λ x w' p. p)))
                  (λ w' p. p) (λ o w' p. ap (λ (x : Db App). x.row c.id id) p.1 ∙ known)
                  (λ x w' p. p) in
              same.at w refl
          | inr new ↦
              let written =
                Triple-mono {Q' = λ _ w'. (k.committed w').row c.id id ≡ true}
                  (Triple-Returns (process-fresh_triple c k (Applies effects) handler hk id d new)
                    (Triple-mono back (λ w' p. tt) (λ a w' p. p) (λ x w' p. p)))
                  (λ w' p. p)
                  (λ o w' p.
                    ap (λ r. r c.id id) p.2.0
                    ∙ ground (arith, consumer_id_beq_iff c.id c.id, message_id_beq_iff id id))
                  (λ x w' p. p) in
              written.at w refl
        ];
  }

  -- Over a backend that keeps its contract and whose calls all return, with handlers that apply their
  -- effect once where they succeed and leave the rows of the inbox alone: if the effects counted so
  -- far are `n`, and one more if the message is recorded, then after any deliveries of the message,
  -- and one more whose handler neither fails nor stops, the effects are `n` and one more.
  pub deliver_all-applied :
      (n : ℕ) (handlers : List (c.store.Conn → Io W (HandlerError E) T)) (w : W)
      → All (λ h. HandlerContract c k h (Applies effects)) handlers
      → Once effects c.id id n (k.committed w)
      → effects (k.committed (deliver_all c id (handlers ++ handler ∷ []) w)).app ≡ suc n
  unfolding deliver_all
  deliver_all-applied n handlers w hs once =
      let before = deliver_all c id handlers w in
      let after = (process c id handler before).1 in
      let kept =
        Triple-always (λ w. Once effects c.id id n (k.committed w)) (process c id handler) before
          (process-Once c k id effects n handler hk)
          (deliver_all-Once c k id effects n handlers w hs once) in
      let there =
        Triple-always (λ w. (k.committed w).row c.id id ≡ true) (process c id handler) before
          (Triple-mono recorded (λ w h. h) (λ a w h. h) (λ x w h. absurd h)) tt in
      ap (λ v. effects (k.committed v).app) (deliver_all-append c id handlers (handler ∷ []) w)
      ∙ kept
      ∙ ground (arith, there)
