-- ===== src/Testing/Rollbacks.antt =====
-- The checks of a handler's failure and of a rollback.
use txbox.Common.{none, some, Bool, true, false, not, ◌≡◌, ◌⊎◌, inl, inr, refl, ap, arith}
use txbox.Consumer.{consumer, process, begin, rollback}
use txbox.Consumer.Process.{HandlerContract, process-fresh_triple}
use txbox.Consumer.Returns.{HandlerFailed, HandlerReturns, process-Ended}
use txbox.Error.{BoxError, InboxError}
use txbox.Io.{attempt}
use txbox.Io.Triple.{
  Triple-and, Triple-pure, Triple-throw, Triple-mono, Triple-bind, Triple-attempt, Triple-map_err,
}
use txbox.Result.{ok, err}
use txbox.Store.{InboxStore}
use txbox.Store.Contract.{Contract, Db}
use txbox.Store.Reliable.{Reliable}
use txbox.Str.{str, len, is_whitespace}
use txbox.Testing.{Panic, Run, assert}
use txbox.Testing.Checks.{
  handler_failure_rolls_back, explicit_rollback_discards, failing_claim, is_handler_error,
  must_surface,
}
use txbox.Testing.Names.{IsRun, IsCheck, scoped_consumer}
use txbox.Testing.Probes.{
  Excused, Check, Check-expecting, with_message, with_consumer, with_probe, last_probe, Check-claim,
}
use txbox.Testing.Processes.{IsNew, m-IsMessage}
use txbox.Types.{claim_request, ConsumerId, MessageId, Outcome, consumer_id_eq, message_id_eq}

failure-IsCheck : IsCheck (str "handler-failure")
unfolding is_whitespace len
failure-IsCheck = record { not_blank = refl; ends_clean = refl; short = omega arith }

effect-IsCheck : IsCheck (str "handler-failure-effect")
unfolding is_whitespace len
effect-IsCheck = record { not_blank = refl; ends_clean = refl; short = omega arith }

rollback-IsCheck : IsCheck (str "rollback")
unfolding is_whitespace len
rollback-IsCheck = record { not_blank = refl; ends_clean = refl; short = omega arith }

module _ {W E App : Type 0} (s : InboxStore W E) (k : Contract s App) (Faulty : Type 0)
    (f : Reliable s Faulty) where
  failing-HandlerContract :
      (c e : ConsumerId) (m : MessageId)
      → HandlerContract (consumer s c) k (failing_claim s e m) (λ v value v'. ⊥)
  unfolding failing_claim
  failing-HandlerContract c e m = record {
    run_lem = λ conn d v.
        Triple-bind
          (Triple-map_err BoxError.inbox (k.claim_lem conn (claim_request e m) d v) (λ x w h. h)
            (λ w h. h))
          (λ a. Triple-throw _ (λ w h. h.0));
  }

  failing-HandlerReturns :
      (e : ConsumerId) (m : MessageId) (conn : s.Conn)
      → HandlerReturns (Unit {0}) Faulty (failing_claim s e m conn)
  unfolding failing_claim
  failing-HandlerReturns e m conn =
      Triple-bind
        (Triple-map_err BoxError.inbox (f.claim_lem conn (claim_request e m)) (λ x w h. tt)
          (λ w h. h))
        (λ a. Triple-throw _ (λ w h. tt))

  surfaced :
      (x : InboxError E)
      → Faulty ⊎ HandlerFailed (Unit {0}) (some x)
      → Faulty ⊎ (is_handler_error {A = Outcome (Unit {0})} (err x) ≡ true)
  surfaced (InboxError.handler e) h = inr refl
  surfaced (InboxError.backend e) h = elim h [ inl p ↦ inl p | inr p ↦ absurd p ]
  surfaced InboxError.contended h = elim h [ inl p ↦ inl p | inr p ↦ absurd p ]
  surfaced (InboxError.invalid_id e) h = elim h [ inl p ↦ inl p | inr p ↦ absurd p ]

  stopped : Faulty ⊎ HandlerFailed {E = E} (Unit {0}) none → Faulty
  stopped (inl p) = p
  stopped (inr p) = absurd p

  failed_process :
      (c e : ConsumerId) (m : MessageId) (d : Db App)
      → d.row c m ≡ false
      → Check {E = E} Faulty
          (λ w. k.committed w ≡ d)
          (attempt (process (consumer s c) m (failing_claim s e m)))
          (λ r w. (k.committed w ≡ d) × (Faulty ⊎ (is_handler_error r ≡ true)))
  failed_process c e m d new =
      Triple-mono
        (Triple-attempt {R' = λ x _. Excused Faulty x}
          (Triple-and
            (process-fresh_triple (consumer s c) k (λ v value v'. ⊥) (failing_claim s e m)
              (failing-HandlerContract c e m) m d new)
            (Triple-mono
              (process-Ended (consumer s c) (Unit {0}) Faulty f m (failing_claim s e m)
                (failing-HandlerReturns e m))
              (λ w h. tt) (λ a w h. h) (λ x w h. h)))
          (λ w h. stopped h.1))
        (λ w h. h)
        (elim [
          | ok a ↦ λ w h. absurd h.0.2
          | err x ↦ λ w h. (elim h.0 [ inl same ↦ same | inr p ↦ absurd p.1 ], surfaced x h.1)
        ])
        (λ x w h. h)

  surface :
      {P : W → Type 0} (b : Bool)
      → Check {E = E} Faulty (λ w. P w × (Faulty ⊎ (b ≡ true))) (assert b must_surface) (λ _ w. P w)
  surface true = Triple-pure tt (λ w h. h.0)
  surface false =
      Triple-throw (Panic.violated must_surface)
        (λ w h. elim h.1 [ inl p ↦ (p, refl) | inr e ↦ cc e ])

  pub failure_triple :
      (run : Run) (d : Db App)
      → IsRun run
      → IsNew (scoped_consumer run (str "handler-failure")) d
      → IsNew (scoped_consumer run (str "handler-failure-effect")) d
      → Check Faulty
          (λ w. k.committed w ≡ d)
          (handler_failure_rolls_back s run)
          (λ _ w. k.committed w ≡ d)
  unfolding handler_failure_rolls_back
  failure_triple run d r new_inbox new_effects =
      let inbox = scoped_consumer run (str "handler-failure") in
      let effects = scoped_consumer run (str "handler-failure-effect") in
      let m : MessageId = record { as_str = str "m" } in
      with_consumer Faulty _ run (str "handler-failure") r failure-IsCheck (
        with_consumer Faulty _ run (str "handler-failure-effect") r effect-IsCheck (
          with_message Faulty _ (str "m") m-IsMessage (
            Triple-bind (failed_process inbox effects m d (new_inbox m)) (λ result.
              Triple-bind (surface (is_handler_error result)) (λ _.
                with_probe s k Faulty f _ not inbox m _ d (ap not (new_inbox m))
                  (last_probe s k Faulty f not effects m _ d (ap not (new_effects m))))))))

  pub rollback_triple :
      (run : Run) (d : Db App)
      → IsRun run
      → IsNew (scoped_consumer run (str "rollback")) d
      → Check Faulty
          (λ w. k.committed w ≡ d)
          (explicit_rollback_discards s run)
          (λ _ w. k.committed w ≡ d)
  unfolding explicit_rollback_discards begin rollback
  rollback_triple run d r new =
      let c = scoped_consumer run (str "rollback") in
      let m : MessageId = record { as_str = str "m" } in
      with_consumer Faulty _ run (str "rollback") r rollback-IsCheck (
        with_message Faulty _ (str "m") m-IsMessage (
          Triple-bind (Check-expecting Faulty (str "begin") (k.begin_lem d) f.begin_lem) (λ tx.
            Triple-bind (Check-claim s k Faulty f tx c m d) (λ a.
              Triple-bind
                (Triple-mono
                  (Check-expecting Faulty (str "rollback") (k.rollback_lem tx d)
                    (f.rollback_lem tx))
                  (λ w h. h.0) (λ _ w h. h) (λ x w h. h))
                (λ _. last_probe s k Faulty f not c m _ d (ap not (new m)))))))
