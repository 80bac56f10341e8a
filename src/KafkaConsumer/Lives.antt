-- ===== src/KafkaConsumer/Lives.antt =====
-- The consumer of examples/kafka_consumer.rs over its lives: it runs for some turns, ends by an
-- error, a crash or from outside, and is started anew.
use txbox.Common.{
  ℕ, zero, suc, ◌+◌, true, ◌≡◌, refl, sym, subst, List, [], ◌∷◌, All, contains, arith, ◌==◌, nat_eq,
  nat_beq_iff, Bool-cases, inl, inr,
}
use txbox.Consumer.{Consumer}
use txbox.Consumer.Process.{HandlerContract}
use txbox.Error.{HandlerError}
use txbox.Io.{Io}
use txbox.Io.Triple.{Triple, Triple-pure, Triple-mono, Triple-bind, Triple-always}
use txbox.KafkaConsumer.{StreamConsumer, turns}
use txbox.KafkaConsumer.Broker.{Broker}
use txbox.KafkaConsumer.Ledger.{StoresOrder}
use txbox.KafkaConsumer.Turns.{Covered, SafeWorld, At, turn_triple}
use txbox.Store.Contract.{Contract}

All-contains : (P : ℕ → Type 0) (x : ℕ) (xs : List ℕ) → All P xs → contains xs x ≡ true → P x
All-contains P x [] h e = ground arith
All-contains P x (y ∷ ys) h e = elim (Bool-cases (x == y)) [
  | inl same ↦ subst P (sym ((nat_beq_iff x y).0 same)) h.0
  | inr other ↦ All-contains P x ys h.1 (ground (arith, other, e))
]

module _ {D K E : Type 0} (orders : Consumer D E) (kafka : StreamConsumer K E)
    (log : List kafka.Message) (b : Broker kafka log)
    (store_order : List ℕ → orders.store.Conn → Io D (HandlerError E) (Unit {0})) where
  -- One life for each number of turns.
  unfoldable pub lives : List ℕ → D × K → D × K
  lives [] w = w
  lives (n ∷ ns) w = lives ns (turns kafka orders store_order n (w.0, b.restart w.1)).1

module _ {D K E App : Type 0} (c : Consumer D E) (k : Contract c.store App)
    (kafka : StreamConsumer K E) (log : List kafka.Message) (b : Broker kafka log)
    (orders : App → List (List ℕ))
    (store_order : List ℕ → c.store.Conn → Io D (HandlerError E) (Unit {0}))
    (hk : (payload : List ℕ)
      → HandlerContract c k (store_order payload) (StoresOrder orders payload)) where
  turns_triple :
      (n p : ℕ)
      → Triple
          (At c k kafka log b orders p)
          (turns kafka c store_order n)
          (λ _ w. At c k kafka log b orders (p + n) w)
          (λ _ w. SafeWorld c k kafka log b orders w)
  unfolding turns
  turns_triple zero p =
      Triple-pure tt (λ w h. subst (λ x. At c k kafka log b orders x w) (omega arith) h)
  turns_triple (suc n) p = Triple-bind (turn_triple c k kafka log b orders store_order hk p) (λ _.
      Triple-mono (turns_triple n (suc p)) (λ w h. h)
        (λ o w h. subst (λ x. At c k kafka log b orders x w) (omega arith) h) (λ x w h. h))

  pub restarted :
      (w : D × K)
      → SafeWorld c k kafka log b orders w
      → At c k kafka log b orders (b.position (b.restart w.1)) (w.0, b.restart w.1)
  restarted w h =
      let d = k.committed w.0 in
      let kept = subst (All (Covered kafka log c.id d)) (sym (b.restart-resumes w.1)) h.1 in
      (
        (h.0, kept),
        All-contains (Covered kafka log c.id d) (b.position (b.restart w.1)) (b.resumes w.1) h.1
            (b.restart_lem w.1),
        refl,
      )

  -- Exactly once, end to end: over a backend and a handler that keep their contracts, and a broker
  -- that does as documented, if the table holds one order for each recorded message and each message
  -- before an offset that the group may resume from is recorded or has no usable key, the same holds
  -- after any lives of the consumer, whatever ended each.
  pub lives-SafeWorld :
      (ns : List ℕ) (w : D × K)
      → SafeWorld c k kafka log b orders w
      → SafeWorld c k kafka log b orders (lives c kafka log b store_order ns w)
  unfolding lives
  lives-SafeWorld [] w h = h
  lives-SafeWorld (n ∷ ns) w h =
      let start : D × K = (w.0, b.restart w.1) in
      lives-SafeWorld ns (turns kafka c store_order n start).1 (
        Triple-always (SafeWorld c k kafka log b orders) (turns kafka c store_order n) start
          (Triple-mono (turns_triple n (b.position (b.restart w.1))) (λ w p. p) (λ o w p. p.0)
            (λ x w p. p))
          (restarted w h))
