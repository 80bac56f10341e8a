-- ===== src/Testing/Probes.antt =====
-- What the parts of the checks do over a backend that keeps its contract, and when they panic.
use txbox.Common.{Bool, true, false, Option, none, some, ◌≡◌, ◌∙◌, ap, ◌==◌, arith, ◌≤◌}
use txbox.Consumer.{consumer, claim}
use txbox.Consumer.Process.{claim_triple}
use txbox.Consumer.Returns.{claim-Returns}
use txbox.Error.{InboxError}
use txbox.Io.{Io, or_drop, ◌>>=◌}
use txbox.Io.Triple.{
  Triple, Triple-pure, Triple-throw, Triple-mono, Triple-fact, Triple-bind, Triple-map_err,
  Triple-or_drop,
}
use txbox.Store.{InboxStore}
use txbox.Store.Contract.{Contract, Db, add, answer}
use txbox.Store.Reliable.{Returns, Reliable, Triple-Returns}
use txbox.Str.{Str, str, len}
use txbox.Testing.{
  Panic, Run, expecting, assert, run_consumer, message, claim_and_commit, is_committed,
}
use txbox.Testing.Checks.{must_surface}
use txbox.Testing.Names.{IsRun, IsCheck, scoped_consumer, prefixed_lem, message_id_try_from_lem}
use txbox.Types.{Claim, claim_eq, claim_request, ConsumerId, MessageId, message_max_len}
use txbox.Types.Ids.{IsClean}

-- How a check may panic: never by an id that is refused, nor by an assertion, and at an `expect` on a
-- call of the backend only if that call is `Faulty`. One assertion is on an error that a `Faulty`
-- call may have caused.
abbrev pub Excused : {E : Type 0} → Type 0 → Option (Panic E) → Type 0
Excused Faulty none = Faulty
Excused Faulty (some (Panic.expected what e)) = Faulty
Excused Faulty (some (Panic.refused what e)) = ⊥
Excused Faulty (some (Panic.violated what)) = Faulty × (what ≡ must_surface)

-- A text that is accepted as a message id.
pub record IsMessage (v : Str) : Type 0 where
  pub clean : IsClean v
  pub short : len v ≤ message_max_len

module _ {W E : Type 0} (Faulty : Type 0) where
  -- A check, or a part of one.
  abbrev pub Check : {A : Type 0} → (W → Type 0) → Io W (Panic E) A → (A → W → Type 0) → Type 0
  Check P m Q = Triple P m Q (λ x _. Excused Faulty x)

  pub Check-expecting :
      {A : Type 0} {P : W → Type 0} {Q : A → W → Type 0} {R : Option (InboxError E) → W → Type 0}
      {m : Io W (InboxError E) A} (what : Str)
      → Triple P m Q R
      → Returns Faulty m
      → Check P (expecting what m) Q
  Check-expecting what t u =
      Triple-map_err (Panic.expected what) (Triple-Returns t u) (λ e w h. h) (λ w h. h)

  -- The transaction of a call that panics is dropped.
  pub Check-or_drop :
      {A : Type 0} {P : W → Type 0} {Q : A → W → Type 0} {m : Io W (Panic E) A} (cleanup : W → W)
      → Check P m Q
      → Check P (or_drop cleanup m) Q
  Check-or_drop cleanup t = Triple-or_drop cleanup t (λ x w h. h)

  pub Check-assert :
      {P : W → Type 0} (b : Bool) (what : Str)
      → ((w : W) → P w → b ≡ true)
      → Check P (assert b what) (λ _ w. P w)
  Check-assert true what h = Triple-pure tt (λ w p. p)
  Check-assert false what h = Triple-throw (Panic.violated what) (λ w p. cc (h w p))

  -- An assertion that holds, and what follows it.
  pub with_assert :
      {P : W → Type 0} {A : Type 0} {Q : A → W → Type 0} (next : Unit {0} → Io W (Panic E) A)
      (b : Bool) (what : Str)
      → ((w : W) → P w → b ≡ true)
      → Check P (next tt) Q
      → Check P (assert b what >>= next) Q
  with_assert next b what h t = Triple-bind (Check-assert b what h) (λ _. t)

  -- An id that is accepted is the text that was given.
  pub with_message :
      {A : Type 0} {P : W → Type 0} {Q : A → W → Type 0} (next : MessageId → Io W (Panic E) A)
      (v : Str)
      → IsMessage v
      → Check P (next (record { as_str = v })) Q
      → Check P (message v >>= next) Q
  unfolding message
  with_message next v m t = rw (message_id_try_from_lem v m.clean m.short) t

  pub with_consumer :
      {A : Type 0} {P : W → Type 0} {Q : A → W → Type 0} (next : ConsumerId → Io W (Panic E) A)
      (run : Run) (check : Str)
      → IsRun run
      → IsCheck check
      → Check P (next (scoped_consumer run check)) Q
      → Check P (run_consumer run check >>= next) Q
  unfolding run_consumer
  with_consumer next run check r c t = rw (prefixed_lem run check r c) t

module _ {W E App : Type 0} (s : InboxStore W E) (k : Contract s App) (Faulty : Type 0)
    (f : Reliable s Faulty) where
  pub claim_and_commit_triple :
      (c : ConsumerId) (m : MessageId) (d : Db App)
      → Check Faulty
          (λ w. k.committed w ≡ d)
          (claim_and_commit s c m)
          (λ a w. (k.committed w ≡ add c m d) × (a ≡ answer c d m))
  unfolding claim_and_commit claim_request
  claim_and_commit_triple c m d =
      Triple-bind (Check-expecting Faulty (str "begin") (k.begin_lem d) f.begin_lem) (λ tx.
        Triple-bind
          (Check-or_drop Faulty (s.drop tx) (
            Check-expecting Faulty (str "claim") (k.claim_lem (s.conn tx) (claim_request c m) d d)
              (f.claim_lem (s.conn tx) (claim_request c m))))
          (λ a.
            Triple-fact (λ w h. h.2)
              (λ answered.
                Triple-bind
                  (Triple-mono
                    (Check-expecting Faulty (str "commit") (k.commit_lem tx d (add c m d))
                      (f.commit_lem tx))
                    (λ w h. (h.0, h.1)) (λ _ w h. h) (λ x w h. h))
                  (λ _. Triple-pure a (λ w h. (h, answered))))))

  pub is_committed_triple :
      (c : ConsumerId) (m : MessageId) (d : Db App)
      → Check Faulty
          (λ w. k.committed w ≡ d)
          (is_committed s c m)
          (λ b w. (k.committed w ≡ d) × (b ≡ d.row c m))
  unfolding is_committed claim_request
  is_committed_triple c m d =
      Triple-bind (Check-expecting Faulty (str "begin") (k.begin_lem d) f.begin_lem) (λ tx.
        Triple-bind
          (Check-or_drop Faulty (s.drop tx) (
            Check-expecting Faulty (str "claim") (k.claim_lem (s.conn tx) (claim_request c m) d d)
              (f.claim_lem (s.conn tx) (claim_request c m))))
          (λ a.
            Triple-fact (λ w h. h.2)
              (λ answered.
                Triple-bind
                  (Triple-mono
                    (Check-expecting Faulty (str "rollback") (k.rollback_lem tx d)
                      (f.rollback_lem tx))
                    (λ w h. h.0) (λ _ w h. h) (λ x w h. h))
                  (λ _.
                    Triple-pure (a == Claim.duplicate) (λ w h. (h, ground (arith, answered)))))))

  -- A probe, an assertion on what it found, and what follows.
  pub with_probe :
      {A : Type 0} {Q : A → W → Type 0} (next : Unit {0} → Io W (Panic E) A) (test : Bool → Bool)
      (c : ConsumerId) (m : MessageId) (what : Str) (d : Db App)
      → test (d.row c m) ≡ true
      → Check Faulty (λ w. k.committed w ≡ d) (next tt) Q
      → Check Faulty
          (λ w. k.committed w ≡ d)
          (is_committed s c m >>= λ b. assert (test b) what >>= next)
          Q
  with_probe next test c m what d h t = Triple-bind (is_committed_triple c m d) (λ b.
      with_assert Faulty next (test b) what (λ w p. ap test p.1 ∙ h)
        (Triple-mono t (λ w p. p.0) (λ a w p. p) (λ x w p. p)))

  pub last_probe :
      (test : Bool → Bool) (c : ConsumerId) (m : MessageId) (what : Str) (d : Db App)
      → test (d.row c m) ≡ true
      → Check Faulty
          (λ w. k.committed w ≡ d)
          (is_committed s c m >>= λ b. assert (test b) what)
          (λ _ w. k.committed w ≡ d)
  last_probe test c m what d h = Triple-bind (is_committed_triple c m d) (λ b.
      Triple-mono (Check-assert Faulty (test b) what (λ w p. ap test p.1 ∙ h)) (λ w p. p)
        (λ a w p. p.0) (λ x w p. p))

  -- A claim in a transaction that is open; a panic drops it.
  pub Check-claim :
      (tx : s.Tx) (c : ConsumerId) (m : MessageId) (d : Db App)
      → Check Faulty
          (λ w. (k.committed w ≡ d) × (k.seen (s.conn tx) w ≡ d))
          (or_drop (s.drop tx) (expecting (str "claim") (claim (consumer s c) (s.conn tx) m)))
          (λ a w. (k.committed w ≡ d) × (k.seen (s.conn tx) w ≡ add c m d) × (a ≡ answer c d m))
  Check-claim tx c m d = Check-or_drop Faulty (s.drop tx) (
      Check-expecting Faulty (str "claim") (claim_triple (consumer s c) k (s.conn tx) m d d)
        (claim-Returns (consumer s c) (Unit {0}) Faulty f (s.conn tx) m))
