-- ===== src/KafkaConsumer/Turns.antt =====
-- One turn of the loop of examples/kafka_consumer.rs: whatever becomes of it, no offset is committed
-- past a message that is not dealt with.
use txbox.Common.{
  ℕ, suc, true, ◌≡◌, ◌⊎◌, ◌<◌, inl, inr, refl, sym, ap, subst, Option, none, some, List, ◌∷◌,
  get_elem?, All, arith, Bool-cases, ◌==◌, nat_eq, nat_beq_iff,
}
use txbox.Consumer.{Consumer}
use txbox.Consumer.Process.{HandlerContract}
use txbox.Consumer.Unique.{All-mono}
use txbox.Error.{BoxError, HandlerError}
use txbox.Io.{Io}
use txbox.Io.Triple.{Triple, Triple-mono, Triple-bind, Triple-map_err}
use txbox.KafkaConsumer.{StreamConsumer, message_id, commit_message, on_id, turn}
use txbox.KafkaConsumer.Broker.{Broker}
use txbox.KafkaConsumer.Worlds.{Triple-on_db, Triple-on_kafka}
use txbox.KafkaConsumer.Ledger.{StoresOrder, Ledger, Grows, process-Ledger}
use txbox.Store.Contract.{Contract, Db}
use txbox.Types.{ConsumerId, MessageId}

module _ {K E App : Type 0} (kafka : StreamConsumer K E) (log : List kafka.Message)
    (consumer : ConsumerId) where
  -- The message is recorded, or has no usable key.
  abbrev pub Settled : Db App → kafka.Message → Type 0
  Settled d m =
      (message_id kafka m ≡ none)
      ⊎ ((id : MessageId) × (message_id kafka m ≡ some id) × (d.row consumer id ≡ true))

  -- Every message before the offset `x` is.
  abbrev pub Covered : Db App → ℕ → Type 0
  Covered d x = (i : ℕ) → i < x → (m : kafka.Message) → get_elem? log i ≡ some m → Settled d m

  Covered-suc :
      (d : Db App) (p : ℕ) (m : kafka.Message)
      → get_elem? log p ≡ some m
      → Settled d m
      → Covered d p
      → Covered d (suc p)
  Covered-suc d p m here s c i lt n there = elim (Bool-cases (i == p)) [
    | inl same ↦ subst (Settled d) (ground (arith, here, there, nat_beq_iff i p)) s
    | inr other ↦ c i (ground (arith, lt, other, nat_beq_iff i p)) n there
  ]

  Settled-Grows :
      (d d' : Db App) (m : kafka.Message) → Grows consumer d d' → Settled d m → Settled d' m
  Settled-Grows d d' m g (inl bad) = inl bad
  Settled-Grows d d' m g (inr (id, e, r)) = inr (id, e, g id r)

module _ {D K E App : Type 0} (c : Consumer D E) (k : Contract c.store App)
    (kafka : StreamConsumer K E) (log : List kafka.Message) (b : Broker kafka log)
    (orders : App → List (List ℕ)) where
  -- One order for each recorded message, and every message is dealt with before an offset that the
  -- group may resume from.
  abbrev pub Safe : Db App → List ℕ → Type 0
  Safe d rs = Ledger kafka log c.id orders d × All (Covered kafka log c.id d) rs

  abbrev pub SafeWorld : D × K → Type 0
  SafeWorld w = Safe (k.committed w.0) (b.resumes w.1)

  -- And before the consumer's position.
  abbrev pub At : ℕ → D × K → Type 0
  At p w = SafeWorld w × Covered kafka log c.id (k.committed w.0) p × (b.position w.1 ≡ p)

  world_at :
      (d : Db App) (rs : List ℕ) (w : D × K)
      → k.committed w.0 ≡ d
      → b.resumes w.1 ≡ rs
      → Safe d rs
      → SafeWorld w
  world_at d rs w e q s = subst (λ x. Safe x (b.resumes w.1)) (sym e) (subst (Safe d) (sym q) s)

  -- The offset after the message is committed, once the message is dealt with.
  commit_triple :
      (m : kafka.Message) (p : ℕ) (d : Db App) (rs : List ℕ)
      → get_elem? log p ≡ some m
      → Safe d rs
      → Covered kafka log c.id d (suc p)
      → Triple
          (λ w. (k.committed w.0 ≡ d) × ((b.position w.1 ≡ suc p) × (b.resumes w.1 ≡ rs)))
          (commit_message kafka m)
          (λ _ w. At (suc p) w)
          (λ _ w. SafeWorld w)
  commit_triple m p d rs here s cover =
      let safe : Safe d (suc (b.offset m) ∷ rs) = (
        s.0,
        (subst (Covered kafka log c.id d) (ap suc (sym (b.offset_lem p m here))) cover, s.1),
      ) in
      Triple-mono
        (Triple-on_kafka {R = λ _ x. (b.resumes x ≡ rs) ⊎ (b.resumes x ≡ suc (b.offset m) ∷ rs)}
          (λ x. k.committed x ≡ d)
          (Triple-map_err BoxError.foreign (b.commit_lem m (suc p) rs) (λ e w h. h) (λ w h. h)))
        (λ w h. h)
        (λ _ w h. (
          world_at d (suc (b.offset m) ∷ rs) w h.0 h.1.1 safe,
          subst (λ x. Covered kafka log c.id x (suc p)) (sym h.0) cover,
          h.1.0,
        ))
        (λ x w h. elim h.1 [
          | inl as_before ↦ world_at d rs w h.0 as_before s
          | inr asked ↦ world_at d (suc (b.offset m) ∷ rs) w h.0 asked safe
        ])

module _ {D K E App : Type 0} (c : Consumer D E) (k : Contract c.store App)
    (kafka : StreamConsumer K E) (log : List kafka.Message) (b : Broker kafka log)
    (orders : App → List (List ℕ))
    (store_order : List ℕ → c.store.Conn → Io D (HandlerError E) (Unit {0}))
    (hk : (payload : List ℕ)
      → HandlerContract c k (store_order payload) (StoresOrder orders payload)) where
  -- The rest of a turn, with the message at the position `p`.
  on_id_triple :
      (m : kafka.Message) (p : ℕ) (d : Db App) (rs : List ℕ) (x : Option MessageId)
      → message_id kafka m ≡ x
      → get_elem? log p ≡ some m
      → Safe c k kafka log b orders d rs
      → Covered kafka log c.id d p
      → Triple
          (λ w. (k.committed w.0 ≡ d) × ((b.position w.1 ≡ suc p) × (b.resumes w.1 ≡ rs)))
          (on_id kafka c store_order x m)
          (λ _ w. At c k kafka log b orders (suc p) w)
          (λ _ w. SafeWorld c k kafka log b orders w)
  unfolding on_id
  on_id_triple m p d rs none e here s cover =
      commit_triple c k kafka log b orders m p d rs here s
        (Covered-suc kafka log c.id d p m here (inl e) cover)
  on_id_triple m p d rs (some id) e here s cover =
      let grown : (d' : Db App)
          → Grows c.id d d'
          → (x : ℕ) → Covered kafka log c.id d x
          → Covered kafka log c.id d' x =
        λ d' g x old i lt n there. Settled-Grows kafka log c.id d d' n g (old i lt n there) in
      let safe : (d' : Db App)
          → Ledger kafka log c.id orders d'
          → Grows c.id d d'
          → Safe c k kafka log b orders d' rs =
        λ d' l g. (l, All-mono rs (grown d' g) s.1) in
      Triple-bind
        (Triple-mono
          (Triple-on_db
            {R = λ _ x. Ledger kafka log c.id orders (k.committed x) × Grows c.id d (k.committed x)}
            (λ x. (b.position x ≡ suc p) × (b.resumes x ≡ rs))
            (Triple-map_err BoxError.inbox
              (process-Ledger c k kafka log orders store_order hk id m d (e, p, here) s.0)
              (λ e w h. h) (λ w h. h)))
          (λ w h. h) (λ o w h. h)
          (λ x w h.
            world_at c k kafka log b orders (k.committed w.0) rs w refl h.1.1
              (safe (k.committed w.0) h.0.0 h.0.1)))
        (λ o. record {
          at = λ w h.
              let d' = k.committed w.0 in
              let cover' =
                Covered-suc kafka log c.id d' p m here (inr (id, e, h.0.1))
                  (grown d' h.0.0.1 p cover) in
              (commit_triple c k kafka log b orders m p d' rs here (safe d' h.0.0.0 h.0.0.1)
                  cover').at
                w (refl, h.1);
        })

  -- One turn, from the position `p`: if it returns, the message there is dealt with; and however it
  -- ends, there is one order for each recorded message, and no offset was committed past a message
  -- that is not dealt with.
  pub turn_triple :
      (p : ℕ)
      → Triple
          (At c k kafka log b orders p)
          (turn kafka c store_order)
          (λ _ w. At c k kafka log b orders (suc p) w)
          (λ _ w. SafeWorld c k kafka log b orders w)
  unfolding turn
  turn_triple p = record {
    at = λ w h.
        let d = k.committed w.0 in
        let rs = b.resumes w.1 in
        (Triple-bind
            (Triple-mono
              (Triple-on_kafka (λ x. k.committed x ≡ d)
                (Triple-map_err BoxError.foreign (b.recv_lem p rs) (λ e w h. h) (λ w h. h)))
              (λ w h. h) (λ m w h. h) (λ x w q. world_at c k kafka log b orders d rs w q.0 q.1 h.0))
            (λ m. record {
              at = λ w' q.
                  (on_id_triple m p d rs (message_id kafka m) refl q.1.0 h.0 h.1).at w'
                    (q.0, (q.1.1, q.1.2));
            })).at
          w (refl, (h.2, refl));
  }
