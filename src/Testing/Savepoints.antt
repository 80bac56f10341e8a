-- ===== src/Testing/Savepoints.antt =====
-- `savepoints_conformance` over a backend that keeps its contract and whose calls return.
use txbox.Common.{
  ℕ, false, ◌≡◌, refl, ◌∙◌, ap, subst, Option, none, some, List, [], ◌∷◌, map, zip, contains, ◌==◌,
  arith, All, bool_eq,
}
use txbox.Consumer.{consumer}
use txbox.Consumer.Many.{ProcessResult, process_many}
use txbox.Consumer.Many.Acks.{Aligned, Processed-acks}
use txbox.Consumer.Many.Complete.{process_many-Returns}
use txbox.Consumer.Many.Runs.{Processed}
use txbox.Io.{◌>>=◌}
use txbox.Io.Triple.{
  Triple, Gives, Triple-pure, Triple-mono, Triple-fact, Triple-fix, Triple-bind, Triple-map_err,
}
use txbox.Store.{InboxStore, Savepoints}
use txbox.Store.Contract.{Contract, SavepointContract, Db, add}
use txbox.Store.Reliable.{Reliable, ReliableSavepoints}
use txbox.Str.{Str, str, str_eq, len, is_whitespace, decimal}
use txbox.Testing.{Panic, run_new, expecting}
use txbox.Testing.Batches.{
  batch_ids, known, messages, poisoned_handler, check_results, savepoints_conformance,
}
use txbox.Testing.Accepted.{accepts-IsMessage, ids-IsMessage}
use txbox.Testing.Ids.{claim_new_triple}
use txbox.Testing.Names.{IsCheck, scoped_consumer, scoped_consumer-beq, run_new-IsRun}
use txbox.Testing.Poisons.{
  PoisonPost, PoisonFail, Processed-IsExpected, Processed-effect, Processed-other,
}
use txbox.Testing.Probes.{Excused, Check, IsMessage, with_assert, with_message, with_consumer}
use txbox.Testing.Processes.{IsNew}
use txbox.Testing.Suite.{IsForeign, contains-IsForeign}
use txbox.Testing.Sound.{is_poison, IsSound, results-IsSound, check_results_triple}
use txbox.Testing.Poisoned.{KeepsOpen, poisoned-BatchHandlerContract, poisoned_returns}
use txbox.Types.{ConsumerId, MessageId, consumer_id_eq, message_id_eq, consumer_id_beq_iff}

many-IsCheck : IsCheck (str "process-many")
unfolding is_whitespace len
many-IsCheck = record { not_blank = refl; ends_clean = refl; short = omega arith }

effect-IsCheck : IsCheck (str "process-many-effect")
unfolding is_whitespace len
effect-IsCheck = record { not_blank = refl; ends_clean = refl; short = omega arith }

known-IsMessage : IsMessage known
unfolding is_whitespace len
known-IsMessage = accepts-IsMessage _ refl

batch_ids-IsMessage : All IsMessage batch_ids
unfolding batch_ids decimal is_whitespace len
batch_ids-IsMessage = ids-IsMessage batch_ids refl

abbrev known_id : MessageId
known_id = record { as_str = known }

abbrev batch : List MessageId
batch = map (λ id. record { as_str = id }) batch_ids

not-Excused : {E : Type 0} (x : Option (Panic E)) → Excused ⊥ x → ⊥
not-Excused none h = h
not-Excused (some (Panic.expected what e)) h = h
not-Excused (some (Panic.refused what e)) h = h
not-Excused (some (Panic.violated what)) h = h.0

module _ {W E App : Type 0} (s : InboxStore W E) (p : Savepoints s) (k : Contract s App)
    (sk : SavepointContract s p App k) (f : Reliable s ⊥) (g : ReliableSavepoints s p k sk ⊥)
    (keeps : KeepsOpen s p k sk) where
  messages_triple :
      {P : W → Type 0} (ids : List Str)
      → All IsMessage ids
      → Check {E = E} ⊥ P
          (messages ids)
          (λ ms w. P w × (ms ≡ map (λ id. record { as_str = id }) ids))
  unfolding messages
  messages_triple [] valid = Triple-pure [] (λ w h. (h, refl))
  messages_triple (id ∷ ids) valid = with_message ⊥ _ id valid.0 (
      Triple-bind (messages_triple ids valid.1)
        (λ rest. Triple-pure _ (λ w h. (h.0, ap (λ ms. record { as_str = id } ∷ ms) h.1))))

  -- The batch, after the message that is known, on the contents `d`; and what the loop finds.
  batch-IsSound :
      (i e : ConsumerId) (d d' : Db App) (rs : List (ProcessResult E (Unit {0})))
      → (i == e) ≡ false
      → IsNew i d
      → IsNew e d
      → Processed i (PoisonPost e is_poison) (PoisonFail is_poison) batch (add i known_id d) rs d'
      → Aligned (IsSound i e is_poison d') batch rs
  batch-IsSound i e d d' rs apart new_i new_e h =
      let before = add i known_id d in
      results-IsSound i e is_poison before d'
        (λ m. ground (arith, new_i m, consumer_id_beq_iff i i))
        (λ m. ground (arith, new_e m, apart, consumer_id_beq_iff i e, consumer_id_beq_iff e i))
        batch batch rs (λ m p. p) (Processed-IsExpected i e is_poison batch before rs d' h)
        (Processed-acks i (PoisonPost e is_poison) (PoisonFail is_poison)
          (λ m v value u q j. ap (λ (x : Db App). x.row i j) q.0 ∙ ground (arith, apart)) batch
          before rs d' h)
        (Processed-effect i e is_poison batch before rs d' apart h)

  -- From the known message on.
  batch_triple :
      (i e : ConsumerId) (d : Db App)
      → (i == e) ≡ false
      → IsNew i d
      → IsNew e d
      → Check ⊥
          (λ w. k.committed w ≡ add i known_id d)
          (expecting
              (str "process_many")
              (process_many (consumer s i) p batch (poisoned_handler s e))
            >>= λ results. check_results s i e (zip batch results))
          (λ _ w.
            (o : ConsumerId) (j : MessageId)
            → contains (i ∷ e ∷ []) o ≡ false
            → (k.committed w).row o j ≡ d.row o j)
  batch_triple i e d apart new_i new_e =
      Triple-bind
        (Triple-map_err _
          (process_many-Returns (consumer s i) p k sk (poisoned_handler s e)
            (PoisonPost e is_poison) (PoisonFail is_poison)
            (poisoned-BatchHandlerContract s p k sk f keeps i e) batch (add i known_id d) ⊥ f g
            (poisoned_returns s p k sk f keeps e))
          (λ x w h. h) (λ w h. h))
        (λ rs. Triple-fix k.committed (λ d'.
          Triple-fact
            {F = Processed i (PoisonPost e is_poison) (PoisonFail is_poison) batch
              (add i known_id d) rs d'}
            (λ w h.
              subst
                (Processed i (PoisonPost e is_poison) (PoisonFail is_poison) batch
                  (add i known_id d) rs)
                h.1 h.0)
            (λ done.
              Triple-mono
                (check_results_triple s k f i e batch rs d'
                  (batch-IsSound i e d d' rs apart new_i new_e done))
                (λ w h. h.1)
                (λ _ w h o j out.
                  ap (λ (x : Db App). x.row o j) h
                  ∙ Processed-other i e is_poison batch (add i known_id d) rs d' done o j out
                  ∙ ground arith)
                (λ x w h. h))))

  suite_triple :
      (n : ℕ) (d : Db App)
      → ((check : Str) → IsNew (scoped_consumer (run_new n) check) d)
      → Check ⊥
          (λ w. k.committed w ≡ d)
          (savepoints_conformance s p n)
          (λ _ w.
            (o : ConsumerId) (j : MessageId)
            → contains
                (map
                  (scoped_consumer (run_new n))
                  (str "process-many" ∷ str "process-many-effect" ∷ []))
                o
              ≡ false
            → (k.committed w).row o j ≡ d.row o j)
  unfolding savepoints_conformance
  suite_triple n d new =
      let run = run_new n in
      let r = run_new-IsRun n in
      let i = scoped_consumer run (str "process-many") in
      let e = scoped_consumer run (str "process-many-effect") in
      with_consumer ⊥ _ run (str "process-many") r many-IsCheck (
        with_consumer ⊥ _ run (str "process-many-effect") r effect-IsCheck (
          Triple-bind (messages_triple batch_ids batch_ids-IsMessage) (λ ids.
            Triple-fact (λ w h. h.1)
              (λ same. rw same (
                with_message ⊥ _ known known-IsMessage (
                  Triple-bind
                    (Triple-mono (claim_new_triple s k ⊥ f i known_id d (new _ known_id))
                      (λ w h. h.0) (λ a w h. h) (λ x w h. h))
                    (λ a.
                      Triple-fact (λ w h. h.1)
                        (λ fresh.
                          with_assert ⊥ _ _ _ (λ w h. fresh)
                            (Triple-mono
                              (batch_triple i e d (scoped_consumer-beq run _ _) (new _) (new _))
                              (λ w h. h.0) (λ _ w h. h) (λ x w h. h))))))))))

  -- Over a backend that keeps its contract, with savepoints that keep theirs, whose calls all return
  -- and whose claims leave the savepoint open, and contents without rows for the consumers of the
  -- run: `savepoints_conformance` returns, and leaves the rows of every other consumer as they were.
  pub savepoints_conformance_triple :
      (n : ℕ) (d : Db App)
      → ((check : Str) → IsNew (scoped_consumer (run_new n) check) d)
      → (w : W) → k.committed w ≡ d
      → Gives w
          (savepoints_conformance s p n)
          (λ _ w'.
            (j : ConsumerId) (m : MessageId)
            → IsForeign (run_new n) j
            → (k.committed w').row j m ≡ d.row j m)
          (λ x _. ⊥)
  savepoints_conformance_triple n d new w at =
      let passed : Triple (λ w. k.committed w ≡ d) (savepoints_conformance s p n)
          (λ _ w'.
            (j : ConsumerId) (m : MessageId)
            → IsForeign (run_new n) j
            → (k.committed w').row j m ≡ d.row j m)
          (λ x _. ⊥) =
        Triple-mono (suite_triple n d new) (λ w h. h)
          (λ _ w h j m foreign. h j m (
            contains-IsForeign (run_new n) (str "process-many" ∷ str "process-many-effect" ∷ []) j
              foreign))
          (λ x w h. not-Excused x h) in
      passed.at w at
