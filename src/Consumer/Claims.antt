-- ===== src/Consumer/Claims.antt =====
-- `Consumer::claim_many` over a backend that keeps its contract: one statement for the whole batch
-- answers like one claim per id, in order.
use txbox.Common.{
  Option, Bool, ◌&&◌, ◌||◌, ◌≡◌, refl, sym, ap, ◌∙◌, fun_ext, List, [], ◌∷◌, map, ◌==◌,
}
use txbox.Consumer.{Consumer, claim_many, unique_ids, answers_from}
use txbox.Consumer.Answers.{answers_from_lem}
use txbox.Consumer.Unique.{contains-unique_ids, unique_ids-IsAscending}
use txbox.Error.{InboxError}
use txbox.Io.Triple.{Triple, Triple-pure, Triple-bind, Triple-fact, Triple-mono}
use txbox.Store.Contract.{Contract, Db, answer, add_all, claim_each}
use txbox.Store.Reliable.{Reliable, Triple-Returns}
use txbox.Store.Defaults.{add_all-nil}
use txbox.Types.{Claim, ConsumerId, MessageId, claim_batch, consumer_id_eq, message_id_eq}

add_all-unique_ids :
    {App : Type 0} (c : ConsumerId) (ids : List MessageId) (v : Db App)
    → add_all c (unique_ids ids) v ≡ add_all c ids v
add_all-unique_ids c ids v =
    ap (λ (f : MessageId → Bool). record v { row = λ k m. v.row k m || (k == c && f m) })
      (fun_ext (λ m. contains-unique_ids m ids))

module _ {W E App : Type 0} (c : Consumer W E) (k : Contract c.store App) where
  answers_triple :
      {R : Option (InboxError E) → W → Type 0} (conn : c.store.Conn) (ids : List MessageId)
      (d v : Db App) (claims : List Claim)
      → claims ≡ map (answer c.id v) (unique_ids ids)
      → Triple
          (λ w. (k.committed w ≡ d) × (k.seen conn w ≡ add_all c.id (unique_ids ids) v))
          (answers_from {W = W} {E = E} ids (unique_ids ids) claims)
          (λ ks w.
            (k.committed w ≡ d)
            × (k.seen conn w ≡ add_all c.id ids v)
            × (ks ≡ claim_each c.id ids v))
          R
  answers_triple conn ids d v claims answered =
      rw (answered, answers_from_lem c.id ids v)
        (Triple-pure (claim_each c.id ids v)
          (λ w h. (h.0, h.1 ∙ add_all-unique_ids c.id ids v, refl)))

  -- The batch claims every id, answers each as claims made one after the other would, repeats
  -- included, and commits nothing by itself, however it ends.
  pub claim_many_triple :
      (conn : c.store.Conn) (ids : List MessageId) (d v : Db App)
      → Triple
          (λ w. (k.committed w ≡ d) × (k.seen conn w ≡ v))
          (claim_many c conn ids)
          (λ ks w.
            (k.committed w ≡ d)
            × (k.seen conn w ≡ add_all c.id ids v)
            × (ks ≡ claim_each c.id ids v))
          (λ _ w. k.committed w ≡ d)
  unfolding claim_many claim_batch
  claim_many_triple conn [] d v =
      Triple-pure [] (λ w h. (h.0, h.1 ∙ sym (add_all-nil c.id v), refl))
  claim_many_triple conn (m ∷ ms) d v =
      Triple-bind (k.claim_many_lem conn _ d v (unique_ids-IsAscending (m ∷ ms))) (λ claims.
        Triple-fact (λ w h. h.2)
          (λ answered.
            Triple-mono (answers_triple conn (m ∷ ms) d v claims answered) (λ w h. (h.0, h.1))
              (λ ks w h. h) (λ x w h. h)))

  -- Over a backend whose calls return, it returns: the answers are as many as the ids.
  pub claim_many-Returns :
      (Faulty : Type 0) (f : Reliable c.store Faulty) (conn : c.store.Conn) (ids : List MessageId)
      (d v : Db App)
      → Triple
          (λ w. (k.committed w ≡ d) × (k.seen conn w ≡ v))
          (claim_many c conn ids)
          (λ ks w.
            (k.committed w ≡ d)
            × (k.seen conn w ≡ add_all c.id ids v)
            × (ks ≡ claim_each c.id ids v))
          (λ _ _. Faulty)
  unfolding claim_many claim_batch
  claim_many-Returns Faulty f conn [] d v =
      Triple-pure [] (λ w h. (h.0, h.1 ∙ sym (add_all-nil c.id v), refl))
  claim_many-Returns Faulty f conn (m ∷ ms) d v =
      Triple-bind
        (Triple-Returns (k.claim_many_lem conn _ d v (unique_ids-IsAscending (m ∷ ms)))
          (f.claim_many_lem conn _))
        (λ claims.
          Triple-fact (λ w h. h.2)
            (λ answered.
              Triple-mono (answers_triple conn (m ∷ ms) d v claims answered) (λ w h. (h.0, h.1))
                (λ ks w h. h) (λ x w h. h)))
