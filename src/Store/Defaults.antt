-- ===== src/Store/Defaults.antt =====
-- The default methods of `trait InboxStore` keep the contract that the trait asks of a backend.
use txbox.Common.{
  false, ◌&&◌, ◌||◌, ◌≡◌, refl, sym, ap, ◌∙◌, fun_ext, List, [], ◌∷◌, map, All, Ordering, arith,
  ◌==◌, contains, Bool-cases, inl, inr,
}
use txbox.Io.Triple.{Triple, Triple-pure, Gives, Triple-bind, Triple-fact, Triple-mono}
use txbox.Store.{InboxStore, claim_in_order, default_rollback, default_claim_many}
use txbox.Store.Contract.{Contract, Db, IsAscending, answer, add, add_all, claim_each}
use txbox.Str.{cmp}
use txbox.Str.Order.{cmp_self}
use txbox.Types.{
  ClaimBatch, claim_request, ConsumerId, MessageId, consumer_id_eq, message_id_eq,
  message_id_beq_iff,
}

module _ {App : Type 0} (c : ConsumerId) where
  pub add_all-nil : (v : Db App) → add_all c [] v ≡ v
  add_all-nil v i = record { row = fun_ext (λ k. fun_ext (λ m. row_same k m)) i; app = v.app }
    where
      row_same : (k : ConsumerId) (m : MessageId) → (v.row k m || (k == c && false)) ≡ v.row k m
      row_same k m = ground arith

  pub add_all-add :
      (m : MessageId) (ids : List MessageId) (v : Db App)
      → add_all c ids (add c m v) ≡ add_all c (m ∷ ids) v
  add_all-add m ids v i = record { row = fun_ext (λ k. fun_ext (λ n. row_same k n)) i; app = v.app }
    where
      row_same :
          (k : ConsumerId) (n : MessageId)
          → ((v.row k n || (k == c && (n == m || false))) || (k == c && contains ids n))
            ≡ (v.row k n || (k == c && (n == m || contains ids n)))
      row_same k n = ground arith

module _ {W E App : Type 0} (s : InboxStore W E) (k : Contract s App) where
  claim_in_order_triple :
      (conn : s.Conn) (b : ClaimBatch) (d : Db App) (ids : List MessageId) (v : Db App)
      → Triple
          (λ w. (k.committed w ≡ d) × (k.seen conn w ≡ v))
          (claim_in_order s.claim conn b ids)
          (λ ks w.
            (k.committed w ≡ d)
            × (k.seen conn w ≡ add_all b.consumer ids v)
            × (ks ≡ claim_each b.consumer ids v))
          (λ _ w. k.committed w ≡ d)
  unfolding claim_in_order claim_request
  claim_in_order_triple conn b d [] v =
      Triple-pure [] (λ w h. (h.0, h.1 ∙ sym (add_all-nil b.consumer v), refl))
  claim_in_order_triple conn b d (m ∷ ids) v = Triple-bind (k.claim_lem conn _ d v) (λ a.
      Triple-fact (λ w h. h.2)
        (λ answered.
          Triple-bind
            (Triple-mono (claim_in_order_triple conn b d ids (add b.consumer m v))
              (λ w h. (h.0, h.1)) (λ ks w h. h) (λ x w h. h))
            (λ ks.
              Triple-pure (a ∷ ks)
                (λ w h. (h.0, h.1 ∙ add_all-add b.consumer m ids v, cc (answered, h.2))))))

  -- The default `claim_many` answers one claim after the other, whatever the ids.
  pub default_claim_many-each_triple :
      (conn : s.Conn) (b : ClaimBatch) (d v : Db App)
      → Triple
          (λ w. (k.committed w ≡ d) × (k.seen conn w ≡ v))
          (default_claim_many s.claim conn b)
          (λ ks w.
            (k.committed w ≡ d)
            × (k.seen conn w ≡ add_all b.consumer b.ids v)
            × (ks ≡ claim_each b.consumer b.ids v))
          (λ _ w. k.committed w ≡ d)
  unfolding default_claim_many
  default_claim_many-each_triple conn b d v = claim_in_order_triple conn b d b.ids v

distinct : (m n : MessageId) → cmp m.as_str n.as_str ≡ Ordering.lt → (n == m) ≡ false
distinct m n h = elim (Bool-cases (n == m)) [
  | inl same ↦ cc (
    h,
    cmp_self m.as_str,
    ap (λ (x : MessageId). cmp m.as_str x.as_str) ((message_id_beq_iff n m).0 same),
  )
  | inr other ↦ other
]

module _ {App : Type 0} (c : ConsumerId) where
  answer-add :
      (m n : MessageId) (v : Db App)
      → cmp m.as_str n.as_str ≡ Ordering.lt
      → answer c (add c m v) n ≡ answer c v n
  answer-add m n v h = ground (arith, distinct m n h)

  map-answer-add :
      (m : MessageId) (ids : List MessageId) (v : Db App)
      → All (λ n. cmp m.as_str n.as_str ≡ Ordering.lt) ids
      → map (answer c (add c m v)) ids ≡ map (answer c v) ids
  map-answer-add m [] v h = refl
  map-answer-add m (n ∷ ids) v h = cc (answer-add m n v h.0, map-answer-add m ids v h.1)

  -- Without repeats each claim gets the answer that it would get by itself.
  pub claim_each-eq_map :
      (ids : List MessageId) (v : Db App)
      → IsAscending ids
      → claim_each c ids v ≡ map (answer c v) ids
  claim_each-eq_map [] v h = refl
  claim_each-eq_map (m ∷ ids) v h =
      ap (λ ks. answer c v m ∷ ks)
        (claim_each-eq_map ids (add c m v) h.1 ∙ map-answer-add m ids v h.0)

module _ {W E App : Type 0} (s : InboxStore W E) (k : Contract s App) where
  -- For a batch without repeats, the default `claim_many` does what the contract asks of an
  -- override.
  pub default_claim_many-map_triple :
      (conn : s.Conn) (b : ClaimBatch) (d v : Db App)
      → IsAscending b.ids
      → Triple
          (λ w. (k.committed w ≡ d) × (k.seen conn w ≡ v))
          (default_claim_many s.claim conn b)
          (λ ks w.
            (k.committed w ≡ d)
            × (k.seen conn w ≡ add_all b.consumer b.ids v)
            × (ks ≡ map (answer b.consumer v) b.ids))
          (λ _ w. k.committed w ≡ d)
  default_claim_many-map_triple conn b d v h =
      Triple-mono (default_claim_many-each_triple s k conn b d v) (λ w p. p)
        (λ ks w p. (p.0, p.1, p.2 ∙ claim_each-eq_map b.consumer b.ids v h)) (λ x w p. p)

  -- On any world and for any batch, repeats included, the default `claim_many` answers as one claim
  -- after the other does, and has claimed every id; where a claim fails, nothing is committed.
  pub default_claim_many-each :
      (conn : s.Conn) (b : ClaimBatch) (w : W)
      → Gives w
          (default_claim_many s.claim conn b)
          (λ ks w'.
            (k.committed w' ≡ k.committed w)
            × (k.seen conn w' ≡ add_all b.consumer b.ids (k.seen conn w))
            × (ks ≡ claim_each b.consumer b.ids (k.seen conn w)))
          (λ _ w'. k.committed w' ≡ k.committed w)
  default_claim_many-each conn b w =
      (default_claim_many-each_triple s k conn b (k.committed w) (k.seen conn w)).at w (refl, refl)

  -- On a batch that is sorted by bytes and without repeats, as `Consumer::claim_many` hands it over,
  -- the default `claim_many` does what an override in one statement is asked to do: it answers each
  -- id from the contents before the call, and has claimed every id.
  pub default_claim_many-map :
      (conn : s.Conn) (b : ClaimBatch) (w : W)
      → IsAscending b.ids
      → Gives w
          (default_claim_many s.claim conn b)
          (λ ks w'.
            (k.committed w' ≡ k.committed w)
            × (k.seen conn w' ≡ add_all b.consumer b.ids (k.seen conn w))
            × (ks ≡ map (answer b.consumer (k.seen conn w)) b.ids))
          (λ _ w'. k.committed w' ≡ k.committed w)
  default_claim_many-map conn b w h =
      (default_claim_many-map_triple conn b (k.committed w) (k.seen conn w) h).at w (refl, refl)

  -- The default `rollback` discards the transaction and does not fail.
  pub default_rollback_triple :
      (tx : s.Tx) (d : Db App)
      → Triple
          (λ w. k.committed w ≡ d)
          (default_rollback {E = E} s.drop tx)
          (λ _ w. k.committed w ≡ d)
          (λ _ w. ⊥)
  unfolding default_rollback
  default_rollback_triple tx d = record { at = λ w h. k.drop_lem tx w ∙ h }
