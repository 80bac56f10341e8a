-- ===== src/Testing/Sound.antt =====
-- What the loop of `savepoints_conformance` checks, and that it passes.
use txbox.Common.{
  Bool, true, false, not, ◌&&◌, ◌||◌, ◌≡◌, inl, inr, refl, ◌∙◌, ap, List, [], ◌∷◌, zip, contains,
  ◌==◌, arith, Bool-cases, bool_eq,
}
use txbox.Consumer.Many.{ProcessResult}
use txbox.Consumer.Many.Acks.{Aligned, is_ok}
use txbox.Io.Triple.{Triple-pure, Triple-bind}
use txbox.Result.{ok, err}
use txbox.Store.{InboxStore}
use txbox.Store.Contract.{Contract, Db}
use txbox.Store.Reliable.{Reliable}
use txbox.Str.{Str, str_eq}
use txbox.Testing.Batches.{
  poisons, known, is_duplicate, is_err, check_known, check_result, check_results,
}
use txbox.Testing.Poisons.{IsExpected}
use txbox.Testing.Probes.{Check, with_assert, with_probe, last_probe}
use txbox.Testing.Processes.{IsNew}
use txbox.Types.{ConsumerId, MessageId, consumer_id_eq, message_id_eq, message_id_beq_iff}

-- `poisons.contains(..)`
abbrev pub is_poison : Str → Bool
is_poison id = contains poisons id

-- What the loop checks of a message and its result, against the contents `d`.
pub record IsSound {E App : Type 0} (i e : ConsumerId) (poisoned : Str → Bool) (d : Db App)
    (m : MessageId) (r : ProcessResult E (Unit {0})) : Type 0 where
  known_lem : (m.as_str == known) ≡ true → (is_duplicate r ≡ true) × (d.row e m ≡ false)
  other_lem :
      (m.as_str == known) ≡ false
      → (is_err r ≡ poisoned m.as_str)
        × (d.row i m ≡ not (poisoned m.as_str))
        × (d.row e m ≡ not (poisoned m.as_str))

is_err-is_ok : {E T : Type 0} (r : ProcessResult E T) → is_err r ≡ not (is_ok r)
is_err-is_ok (ok a) = refl
is_err-is_ok (err x) = refl

module _ {E App : Type 0} (i e : ConsumerId) (poisoned : Str → Bool) (d d' : Db App)
    (row_lem : (m : MessageId) → d.row i m ≡ (m.as_str == known)) (new : IsNew e d) where
  result-IsSound :
      (m : MessageId) (r : ProcessResult E (Unit {0}))
      → IsExpected i poisoned d m r
      → d'.row i m ≡ is_ok r
      → d'.row e m ≡ (d.row e m || (not (d.row i m) && not (poisoned m.as_str)))
      → IsSound i e poisoned d' m r
  result-IsSound m r x ack effect = record {
    known_lem = λ h. (x.known_lem (row_lem m ∙ h), ground (arith, effect, row_lem m, new m));
    other_lem = λ h. (
      is_err-is_ok r ∙ ground (arith, x.ok_lem, row_lem m),
      ack ∙ ground (arith, x.ok_lem, row_lem m),
      ground (arith, effect, row_lem m, new m),
    );
  }

  pub results-IsSound :
      (all ids : List MessageId) (rs : List (ProcessResult E (Unit {0})))
      → ((m : MessageId) → contains ids m ≡ true → contains all m ≡ true)
      → Aligned (IsExpected i poisoned d) ids rs
      → Aligned (λ m r. d'.row i m ≡ is_ok r) ids rs
      → ((m : MessageId)
          → d'.row e m
            ≡ (d.row e m || (contains all m && not (d.row i m) && not (poisoned m.as_str))))
      → Aligned (IsSound i e poisoned d') ids rs
  results-IsSound all [] [] among xs acks effects = tt
  results-IsSound all [] (r ∷ rs) among xs acks effects = absurd xs
  results-IsSound all (m ∷ ms) [] among xs acks effects = absurd xs
  results-IsSound all (m ∷ ms) (r ∷ rs) among xs acks effects = (
    result-IsSound m r xs.0 acks.0
        (effects m ∙ ground (arith, among m (ground (arith, message_id_beq_iff m m)))),
    results-IsSound all ms rs (λ j h. among j (ground arith)) xs.1 acks.1 effects,
  )

module _ {W E App : Type 0} (s : InboxStore W E) (k : Contract s App) (f : Reliable s ⊥) where
  check_known_triple :
      (i e : ConsumerId) (m : MessageId) (r : ProcessResult E (Unit {0})) (d : Db App)
      → (is_duplicate r ≡ true) × (d.row e m ≡ false)
      → Check ⊥ (λ w. k.committed w ≡ d) (check_known s e m r) (λ _ w. k.committed w ≡ d)
  unfolding check_known
  check_known_triple i e m r d h =
      with_assert ⊥ _ _ _ (λ w _. h.0) (last_probe s k ⊥ f not e m _ d (ap not h.1))

  check_result_triple :
      (i e : ConsumerId) (m : MessageId) (r : ProcessResult E (Unit {0})) (d : Db App)
      → (is_err r ≡ is_poison m.as_str)
        × (d.row i m ≡ not (is_poison m.as_str))
        × (d.row e m ≡ not (is_poison m.as_str))
      → Check ⊥ (λ w. k.committed w ≡ d) (check_result s i e m r) (λ _ w. k.committed w ≡ d)
  unfolding check_result
  check_result_triple i e m r d h =
      with_assert ⊥ _ _ _ (λ w _. (bool_eq.eq_reflects (is_err r) (is_poison m.as_str)).1 h.0)
        (with_probe s k ⊥ f _ (λ b. b == not (is_poison m.as_str)) i m _ d
          ((bool_eq.eq_reflects _ _).1 h.1)
          (last_probe s k ⊥ f (λ b. b == not (is_poison m.as_str)) e m _ d
            ((bool_eq.eq_reflects _ _).1 h.2)))

  pub check_results_triple :
      (i e : ConsumerId) (ids : List MessageId) (rs : List (ProcessResult E (Unit {0})))
      (d : Db App)
      → Aligned (IsSound i e is_poison d) ids rs
      → Check ⊥
          (λ w. k.committed w ≡ d)
          (check_results s i e (zip ids rs))
          (λ _ w. k.committed w ≡ d)
  unfolding check_results zip
  check_results_triple i e [] [] d h = Triple-pure tt (λ w h. h)
  check_results_triple i e [] (r ∷ rs) d h = absurd h
  check_results_triple i e (m ∷ ms) [] d h = absurd h
  check_results_triple i e (m ∷ ms) (r ∷ rs) d h =
      Triple-bind
        (elim (Bool-cases (m.as_str == known)) [
          | inl same ↦ rw same (check_known_triple i e m r d (h.0.known_lem same))
          | inr other ↦ rw other (check_result_triple i e m r d (h.0.other_lem other))
        ])
        (λ _. check_results_triple i e ms rs d h.1)
