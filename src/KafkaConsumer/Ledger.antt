-- ===== src/KafkaConsumer/Ledger.antt =====
-- The table of orders against the rows of the inbox: one order for each recorded id, which a message
-- of the partition with this key brought; and that `Consumer::process` keeps it so.
use txbox.Common.{
  ℕ, true, false, ◌≡◌, inl, inr, sym, ap, subst, ◌∙◌, some, List, [], ◌∷◌, map, get_elem?, contains,
  All, arith, Bool-cases,
}
use txbox.Consumer.{Consumer, process}
use txbox.Consumer.Process.{HandlerContract, process-duplicate_triple, process-fresh_triple}
use txbox.Error.{HandlerError}
use txbox.Io.{Io}
use txbox.Io.Triple.{Triple, Triple-mono}
use txbox.KafkaConsumer.{StreamConsumer, message_id, payload_of}
use txbox.Store.Contract.{Contract, Db, add}
use txbox.Types.{
  ConsumerId, MessageId, message_id_eq, message_id_beq_iff, consumer_id_eq, consumer_id_beq_iff,
}

-- The handler inserts one order, and leaves the rows of the inbox to the library. `orders` reads the
-- payloads in the table.
abbrev pub StoresOrder :
    {App : Type 0} → (App → List (List ℕ)) → List ℕ → Db App → Unit {0} → Db App → Type 0
StoresOrder orders payload v _ v' = (v'.row ≡ v.row) × (orders v'.app ≡ payload ∷ orders v.app)

abbrev pub Distinct : List MessageId → Type 0
Distinct [] = Unit
Distinct (m ∷ ms) = (contains ms m ≡ false) × Distinct ms

module _ {K E App : Type 0} (kafka : StreamConsumer K E) (log : List kafka.Message)
    (consumer : ConsumerId) (orders : App → List (List ℕ)) where
  -- A message of the partition, under the id of its key.
  abbrev pub FromLog : MessageId × kafka.Message → Type 0
  FromLog (id, m) = (message_id kafka m ≡ some id) × (i : ℕ) × (get_elem? log i ≡ some m)

  -- The messages `done` are recorded, and no other; each brought one order.
  pub record Ledger (d : Db App) : Type 0 where
    pub done : List (MessageId × kafka.Message)
    pub from_log : All FromLog done
    pub distinct : Distinct (map (λ x. x.0) done)
    pub recorded : (id : MessageId) → d.row consumer id ≡ contains (map (λ x. x.0) done) id
    pub stored : orders d.app ≡ map (λ x. payload_of kafka x.1) done

  Ledger-add :
      (d d' : Db App) (id : MessageId) (m : kafka.Message) (value : Unit {0})
      → FromLog (id, m)
      → d.row consumer id ≡ false
      → Ledger d
      → StoresOrder orders (payload_of kafka m) (add consumer id d) value d'
      → Ledger d'
  Ledger-add d d' id m value here new l post = record {
    done = (id, m) ∷ l.done;
    from_log = (here, l.from_log);
    distinct = (sym (l.recorded id) ∙ new, l.distinct);
    recorded = λ x.
        ap (λ r. r consumer x) post.0
        ∙ ground (arith, l.recorded x, consumer_id_beq_iff consumer consumer);
    stored = post.1 ∙ ap (λ os. payload_of kafka m ∷ os) l.stored;
  }

-- No row is lost.
abbrev pub Grows : {App : Type 0} → ConsumerId → Db App → Db App → Type 0
Grows c d d' = (id : MessageId) → d.row c id ≡ true → d'.row c id ≡ true

module _ {W K E App : Type 0} (c : Consumer W E) (k : Contract c.store App)
    (kafka : StreamConsumer K E) (log : List kafka.Message) (orders : App → List (List ℕ))
    (store_order : List ℕ → c.store.Conn → Io W (HandlerError E) (Unit {0}))
    (hk : (payload : List ℕ)
      → HandlerContract c k (store_order payload) (StoresOrder orders payload)) where
  abbrev Kept : Db App → Db App → Type 0
  Kept d d' = Ledger kafka log c.id orders d' × Grows c.id d d'

  after :
      (id : MessageId) (m : kafka.Message) (d d' : Db App) (value : Unit {0})
      → FromLog kafka log c.id orders (id, m)
      → d.row c.id id ≡ false
      → Ledger kafka log c.id orders d
      → StoresOrder orders (payload_of kafka m) (add c.id id d) value d'
      → Kept d d' × d'.row c.id id ≡ true
  after id m d d' value here new l post = (
    (
      Ledger-add kafka log c.id orders d d' id m value here new l post,
      λ x known. ap (λ r. r c.id x) post.0 ∙ ground (arith, known),
    ),
    ap (λ r. r c.id id) post.0
        ∙ ground (arith, consumer_id_beq_iff c.id c.id, message_id_beq_iff id id),
  )

  -- A message of the partition, handed to `process`: the table still matches the rows, no row is
  -- lost, and if the call returns, the message has one.
  pub process-Ledger :
      (id : MessageId) (m : kafka.Message) (d : Db App)
      → FromLog kafka log c.id orders (id, m)
      → Ledger kafka log c.id orders d
      → Triple
          (λ w. k.committed w ≡ d)
          (process c id (store_order (payload_of kafka m)))
          (λ _ w. Kept d (k.committed w) × (k.committed w).row c.id id ≡ true)
          (λ _ w. Kept d (k.committed w))
  process-Ledger id m d here l = elim (Bool-cases (d.row c.id id)) [
    | inl known ↦
        let same : (w : W) → k.committed w ≡ d → Kept d (k.committed w) =
          λ w e. subst (Kept d) (sym e) (l, λ x h. h) in
        Triple-mono (process-duplicate_triple c k id (store_order (payload_of kafka m)) d known)
          (λ w p. p) (λ o w p. (same w p.1, subst (λ x. x.row c.id id ≡ true) (sym p.1) known))
          (λ x w p. same w p)
    | inr new ↦
        Triple-mono
          (process-fresh_triple c k (StoresOrder orders (payload_of kafka m))
            (store_order (payload_of kafka m)) (hk (payload_of kafka m)) id d new)
          (λ w p. p) (λ o w p. after id m d (k.committed w) p.0 here new l p.2)
          (λ x w p. elim p [
            | inl same ↦ subst (Kept d) (sym same) (l, λ x h. h)
            | inr (value, post) ↦ (after id m d (k.committed w) value here new l post).0
          ])
  ]
