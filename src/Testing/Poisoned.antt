-- ===== src/Testing/Poisoned.antt =====
-- The handler of `savepoints_conformance`.
use txbox.Common.{◌≡◌, inl, inr, refl, none, some, Bool-cases, bool_eq}
use txbox.Consumer.{consumer}
use txbox.Consumer.Many.Runs.{BatchHandlerContract}
use txbox.Error.{BoxError}
use txbox.Io.{map_err}
use txbox.Io.Triple.{
  Triple, Triple-and, Triple-pure, Triple-throw, Triple-mono, Triple-bind, Triple-map_err,
}
use txbox.Store.{InboxStore, Savepoints}
use txbox.Store.Contract.{Contract, SavepointContract, Db, add}
use txbox.Store.Reliable.{Reliable, Triple-Returns}
use txbox.Str.{str_eq}
use txbox.Testing.Batches.{poisoned_handler}
use txbox.Testing.Poisons.{PoisonPost, PoisonFail}
use txbox.Testing.Sound.{is_poison}
use txbox.Types.{claim_request, ConsumerId, MessageId, consumer_id_eq, message_id_eq}

-- A claim leaves the savepoint of its connection open.
abbrev pub KeepsOpen :
    {W E App : Type 0} (s : InboxStore W E) (p : Savepoints s) (k : Contract s App)
    → SavepointContract s p App k
    → Type 0
KeepsOpen {W} {E} {App} s p k sk =
    (conn : s.Conn) (c : ConsumerId) (m : MessageId) (u : Db App)
    → Triple (λ w. sk.marked conn w ≡ some u) (s.claim conn (claim_request c m))
        (λ _ w. sk.marked conn w ≡ some u) (λ _ _. Unit {0})

module _ {W E App : Type 0} (s : InboxStore W E) (p : Savepoints s) (k : Contract s App)
    (sk : SavepointContract s p App k) (f : Reliable s ⊥) (keeps : KeepsOpen s p k sk) where
  effect_triple :
      (conn : s.Conn) (e : ConsumerId) (m : MessageId) (d v : Db App)
      → Triple
          (λ w. (k.committed w ≡ d) × (k.seen conn w ≡ v) × (sk.marked conn w ≡ some v))
          (map_err BoxError.inbox (s.claim conn (claim_request e m)))
          (λ _ w. (k.committed w ≡ d) × (k.seen conn w ≡ add e m v) × (sk.marked conn w ≡ some v))
          (λ _ _. ⊥)
  unfolding claim_request
  effect_triple conn e m d v =
      Triple-map_err BoxError.inbox
        (Triple-mono
          (Triple-and
            (Triple-mono
              (Triple-Returns (k.claim_lem conn (claim_request e m) d v)
                (f.claim_lem conn (claim_request e m)))
              (λ w h. (h.0, h.1)) (λ a w h. h) (λ x w h. h))
            (Triple-mono (keeps conn e m v) (λ w h. h.2) (λ a w h. h) (λ x w h. h)))
          (λ w h. h) (λ a w h. (h.0.0, h.0.1, h.1)) (λ x w h. h.0))
        (λ x w h. h) (λ w h. h)

  pub poisoned-BatchHandlerContract :
      (i e : ConsumerId)
      → BatchHandlerContract
          (consumer s i)
          p
          k
          sk
          (poisoned_handler s e)
          (PoisonPost e is_poison)
          (PoisonFail is_poison)
  unfolding poisoned_handler
  poisoned-BatchHandlerContract i e = record {
    run_lem = λ conn m d v.
        Triple-bind
          (Triple-mono (effect_triple conn e m d v) (λ w h. h) (λ a w h. h) (λ x w h. absurd h))
          (λ a. elim (Bool-cases (is_poison m.as_str)) [
            | inl bad ↦ rw bad (Triple-throw _ (λ w h. (h.0, λ _. (h.2, refl))))
            | inr good ↦ rw good (Triple-pure tt (λ w h. (h.0, h.2, (h.1, refl))))
          ]);
  }

  pub poisoned_returns :
      (e : ConsumerId) (conn : s.Conn) (m : MessageId)
      → Triple (λ _. Unit {0}) (poisoned_handler s e conn m) (λ _ _. Unit {0}) (λ x _. x ≡ none → ⊥)
  unfolding poisoned_handler
  poisoned_returns e conn m =
      Triple-bind
        (Triple-map_err BoxError.inbox (f.claim_lem conn (claim_request e m)) (λ x w h. λ _. h)
          (λ w h. λ _. h))
        (λ a. elim (Bool-cases (is_poison m.as_str)) [
          | inl bad ↦ rw bad (Triple-throw _ (λ w h eq. cc))
          | inr good ↦ rw good (Triple-pure tt (λ w h. tt))
        ])
