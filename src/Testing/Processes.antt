-- ===== src/Testing/Processes.antt =====
-- The check of `process` on a new message and on its redelivery.
use txbox.Common.{true, false, ◌≡◌, refl, sym, ap, subst, List, [], ◌∷◌, contains, arith}
use txbox.Consumer.{consumer, process}
use txbox.Consumer.Process.{HandlerContract, process-fresh_triple, process-duplicate_triple}
use txbox.Consumer.Returns.{process-Returns}
use txbox.Error.{HandlerError}
use txbox.Io.{pure}
use txbox.Io.Triple.{Triple-pure, Triple-mono, Triple-fact, Triple-bind}
use txbox.Store.{InboxStore}
use txbox.Store.Contract.{Contract, Db, add}
use txbox.Store.Reliable.{Returns, Reliable}
use txbox.Str.{str, len, is_whitespace}
use txbox.Testing.{Run}
use txbox.Testing.Checks.{fresh_then_duplicate, outcome_beq}
use txbox.Testing.Names.{IsRun, IsCheck, scoped_consumer}
use txbox.Testing.Probes.{
  Check, Check-expecting, Check-assert, IsMessage, with_assert, with_message, with_consumer,
}
use txbox.Types.{
  ConsumerId, MessageId, Outcome, consumer_id_eq, message_id_eq, consumer_id_beq_iff,
  message_id_beq_iff,
}

-- The rows of all other consumers stand.
abbrev pub Others : {App : Type 0} → List ConsumerId → Db App → Db App → Type 0
Others used d d' =
    (j : ConsumerId) (m : MessageId) → contains used j ≡ false → d'.row j m ≡ d.row j m

abbrev pub IsNew : {App : Type 0} → ConsumerId → Db App → Type 0
IsNew c d = (m : MessageId) → d.row c m ≡ false

pub m-IsMessage : IsMessage (str "m")
unfolding is_whitespace len
m-IsMessage = record {
  clean = record { not_blank = refl; starts_clean = refl; ends_clean = refl };
  short = omega arith;
}

-- What a claim leaves.
module _ {App : Type 0} (c : ConsumerId) (m : MessageId) (d : Db App) where
  pub add-row : (add c m d).row c m ≡ true
  add-row = ground (arith, consumer_id_beq_iff c c, message_id_beq_iff m m)

  pub Others-add : Others (c ∷ []) d (add c m d)
  Others-add j n h = ground arith

fresh-IsCheck : IsCheck (str "fresh")
unfolding is_whitespace len
fresh-IsCheck = record { not_blank = refl; ends_clean = refl; short = omega arith }

module _ {W E App : Type 0} (s : InboxStore W E) (k : Contract s App) (Faulty : Type 0)
    (f : Reliable s Faulty) where
  -- `Ok(())`
  nothing-HandlerContract :
      (c : ConsumerId) → HandlerContract (consumer s c) k (λ conn. pure tt) (λ v value v'. v' ≡ v)
  nothing-HandlerContract c = record { run_lem = λ conn d v. Triple-pure tt (λ w h. h) }

  nothing-Returns :
      (c : ConsumerId) (m : MessageId)
      → Returns Faulty (process (consumer s c) m (λ conn. pure {W = W} {E = HandlerError E} tt))
  nothing-Returns c m =
      process-Returns (consumer s c) Faulty f m _ (λ conn. Triple-pure tt (λ w h. h))

  pub fresh_triple :
      (run : Run) (d : Db App)
      → IsRun run
      → IsNew (scoped_consumer run (str "fresh")) d
      → Check Faulty
          (λ w. k.committed w ≡ d)
          (fresh_then_duplicate s run)
          (λ _ w. Others (scoped_consumer run (str "fresh") ∷ []) d (k.committed w))
  unfolding fresh_then_duplicate
  fresh_triple run d r new =
      let c = scoped_consumer run (str "fresh") in
      let m : MessageId = record { as_str = str "m" } in
      with_consumer Faulty _ run (str "fresh") r fresh-IsCheck (
        with_message Faulty _ (str "m") m-IsMessage (
          Triple-bind
            (Check-expecting Faulty (str "first process")
              (process-fresh_triple (consumer s c) k (λ v value v'. v' ≡ v) (λ conn. pure tt)
                (nothing-HandlerContract c) m d (new m))
              (nothing-Returns c m))
            (λ first.
              Triple-fact (λ w h. ap (λ o. outcome_beq o (Outcome.processed tt)) h.1)
                (λ processed.
                  Triple-bind
                    (Triple-mono
                      (Check-expecting Faulty (str "second process")
                        (process-duplicate_triple (consumer s c) k m (λ conn. pure tt) (add c m d)
                          (add-row c m d))
                        (nothing-Returns c m))
                      (λ w h. h.2) (λ o w h. h) (λ x w h. h))
                    (λ second.
                      with_assert Faulty _ _ _ (λ w h. processed)
                        (Triple-mono
                          (Check-assert Faulty _ _
                            (λ w h. ap (λ o. outcome_beq o Outcome.duplicate) h.0))
                          (λ w h. h)
                          (λ _ w h. subst (Others (c ∷ []) d) (sym h.1) (Others-add c m d))
                          (λ x w h. h)))))))
