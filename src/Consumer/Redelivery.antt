-- ===== src/Consumer/Redelivery.antt =====
-- Exactly once: a broker delivers one message again and again to `Consumer::process`, after
-- successes, errors, panics and cancellations alike.
use txbox.Common.{
  ℕ, suc, ◌+◌, true, false, ◌≡◌, inl, inr, refl, sym, ap, subst, ◌∙◌, List, [], ◌∷◌, if◌then◌else◌,
  arith, All, Bool-cases,
}
use txbox.Consumer.{Consumer, process}
use txbox.Consumer.Process.{HandlerContract, process-duplicate_triple, process-fresh_triple}
use txbox.Error.{HandlerError}
use txbox.Io.{Io}
use txbox.Io.Triple.{Triple, Triple-mono, Triple-always}
use txbox.Store.Contract.{Contract, Db, add}
use txbox.Types.{
  ConsumerId, MessageId, consumer_id_eq, message_id_eq, consumer_id_beq_iff, message_id_beq_iff,
}

module _ {W E T : Type 0} (c : Consumer W E) (id : MessageId) where
  -- The deliveries in order, each with its handler, and the world after them. What each call
  -- answers does not keep the broker from delivering again.
  unfoldable pub deliver_all : List (c.store.Conn → Io W (HandlerError E) T) → W → W
  deliver_all [] w = w
  deliver_all (handler ∷ handlers) w = deliver_all handlers (process c id handler w).1

module _ {App : Type 0} (effects : App → ℕ) where
  -- A handler that applies its effect once and leaves the inbox's rows to the library.
  abbrev pub Applies : {T : Type 0} → Db App → T → Db App → Type 0
  Applies v value v' = (v'.row ≡ v.row) × (effects v'.app ≡ suc (effects v.app))

  -- From `n` effects, the effect was applied once more exactly if the message is recorded.
  abbrev pub Once : ConsumerId → MessageId → ℕ → Db App → Type 0
  Once i m n d = effects d.app ≡ n + (if d.row i m then 1 else 0)

  Applies-Once :
      {T : Type 0} (i : ConsumerId) (m : MessageId) (n : ℕ) (d d' : Db App) (value : T)
      → d.row i m ≡ false
      → Once i m n d
      → Applies (add i m d) value d'
      → Once i m n d'
  Applies-Once i m n d d' value new h a =
      let recorded : d'.row i m ≡ true =
        ap (λ r. r i m) a.0 ∙ ground (arith, consumer_id_beq_iff i i, message_id_beq_iff m m) in
      rw recorded (omega (arith, a.1, rw new at h))

module _ {W E App T : Type 0} (c : Consumer W E) (k : Contract c.store App) (id : MessageId)
    (effects : App → ℕ) where
  pub process-Once :
      (n : ℕ) (handler : c.store.Conn → Io W (HandlerError E) T)
      → HandlerContract c k handler (Applies effects)
      → Triple
          (λ w. Once effects c.id id n (k.committed w))
          (process c id handler)
          (λ _ w. Once effects c.id id n (k.committed w))
          (λ _ w. Once effects c.id id n (k.committed w))
  process-Once n handler hk = record {
    at = λ w h.
        let d = k.committed w in
        elim (Bool-cases (d.row c.id id)) [
          | inl known ↦
              (Triple-mono {Q' = λ _ w. Once effects c.id id n (k.committed w)}
                  {R' = λ _ w. Once effects c.id id n (k.committed w)}
                  (process-duplicate_triple c k id handler d known) (λ w p. p)
                  (λ o w p. subst (Once effects c.id id n) (sym p.1) h)
                  (λ x w p. subst (Once effects c.id id n) (sym p) h)).at
                w refl
          | inr new ↦
              (Triple-mono {Q' = λ _ w. Once effects c.id id n (k.committed w)}
                  {R' = λ _ w. Once effects c.id id n (k.committed w)}
                  (process-fresh_triple c k (Applies effects) handler hk id d new) (λ w p. p)
                  (λ o w p. Applies-Once effects c.id id n d (k.committed w) p.0 new h p.2)
                  (λ x w p. elim p [
                    | inl same ↦ subst (Once effects c.id id n) (sym same) h
                    | inr (value, post) ↦
                        Applies-Once effects c.id id n d (k.committed w) value new h post
                  ])).at
                w refl
        ];
  }

  -- Over a backend that keeps its contract, with handlers that apply their effect once where they
  -- succeed and leave the rows of the inbox alone: if the effects counted so far are `n`, and one
  -- more if the message is recorded, the same holds after any deliveries of the message, whatever
  -- became of each.
  pub deliver_all-Once :
      (n : ℕ) (handlers : List (c.store.Conn → Io W (HandlerError E) T)) (w : W)
      → All (λ handler. HandlerContract c k handler (Applies effects)) handlers
      → Once effects c.id id n (k.committed w)
      → Once effects c.id id n (k.committed (deliver_all c id handlers w))
  unfolding deliver_all
  deliver_all-Once n [] w hk h = h
  deliver_all-Once n (handler ∷ handlers) w hk h =
      deliver_all-Once n handlers (process c id handler w).1 hk.1 (
        Triple-always (λ w. Once effects c.id id n (k.committed w)) (process c id handler) w
          (process-Once n handler hk.0) h)
