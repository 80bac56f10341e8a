-- ===== src/Tests/Consume.antt =====
-- `Consumer::process`, and redelivery.
use txbox.Common.{ℕ, [], ◌∷◌, ◌≡◌, ◌⊎◌, some, refl}
use txbox.Consumer.{Consumer, process}
use txbox.Consumer.Outcomes.{process-duplicate, process-fresh}
use txbox.Consumer.Process.{AllOrNothing}
use txbox.Consumer.Failures.{ClaimsAndRollsBack, process-failing_handler}
use txbox.Consumer.Redelivery.{Applies, Once, deliver_all, deliver_all-Once}
use txbox.Error.{HandlerError, InboxError, BoxError}
use txbox.Io.{fail}
use txbox.Io.Triple.{Gives}
use txbox.Memory.{World}
use txbox.Store.Contract.{Contract, add}
use txbox.Tests.Fixture.{
  shop_reliable, shop, shop_contract, m1, m2, known_db, empty_db, world_of, count_handler,
  failing_handler, effect_of, count_handler-HandlerContract, failing_handler-HandlerContract,
  billing,
}
use txbox.Types.{Outcome}

process-duplicate_example :
    Gives
      (world_of known_db)
      (process shop m1 count_handler)
      (λ o w'. (o ≡ Outcome.duplicate) × (w'.committed ≡ known_db))
      (λ _ w'. w'.committed ≡ known_db)
process-duplicate_example =
    process-duplicate shop shop_contract m1 count_handler (world_of known_db) refl

process-fresh_example :
    Gives
      (world_of known_db)
      (process shop m2 count_handler)
      (λ o w'.
        (value : ℕ) × (o ≡ Outcome.processed value)
        × Applies effect_of (add billing m2 known_db) value w'.committed)
      (λ _ w'.
        AllOrNothing {T = ℕ} (Applies effect_of) known_db (add billing m2 known_db) w'.committed)
process-fresh_example =
    process-fresh shop shop_contract (Applies effect_of) count_handler m2 (world_of known_db)
      count_handler-HandlerContract refl

-- Of three deliveries the first fails, and the handler counts once.
deliver_all-Once_example :
    Once effect_of billing m1 4
      (deliver_all shop m1
        (failing_handler ∷ count_handler ∷ count_handler ∷ [])
        (world_of empty_db)).committed
deliver_all-Once_example =
    deliver_all-Once shop shop_contract m1 effect_of 4
      (failing_handler ∷ count_handler ∷ count_handler ∷ []) (world_of empty_db)
      (
        failing_handler-HandlerContract,
        (count_handler-HandlerContract, (count_handler-HandlerContract, tt)),
      )
      refl

-- The shop over a connection that breaks in every rollback.
abbrev breaking : Consumer World ℕ
breaking = record shop {
  store = record shop.store { rollback = λ tx w. (fail InboxError.contended, w) };
}

breaking_contract : Contract breaking.store ℕ
breaking_contract = record {
  committed = shop_contract.committed;
  seen = shop_contract.seen;
  begin_lem = shop_contract.begin_lem;
  commit_lem = shop_contract.commit_lem;
  rollback_lem = λ tx d. record { at = λ w h. h };
  drop_lem = shop_contract.drop_lem;
  claim_lem = shop_contract.claim_lem;
  claim_many_lem = shop_contract.claim_many_lem;
}

breaking-ClaimsAndRollsBack : ClaimsAndRollsBack breaking ⊥
breaking-ClaimsAndRollsBack = record {
  begin_lem = shop_reliable.begin_lem;
  claim_lem = shop_reliable.claim_lem;
  rollback_lem = λ tx. record { at = λ w h e. cc };
}

-- The error is the handler's own, not the one of the rollback.
process-failing_handler_example :
    Gives
      (world_of known_db)
      (process breaking m2 failing_handler)
      (λ _ _. ⊥)
      (λ x w'.
        (w'.committed ≡ known_db)
        × (((e : HandlerError ℕ) × (x ≡ some (InboxError.handler e)) × (e ≡ BoxError.foreign 3))
            ⊎ ⊥))
unfolding breaking_contract
process-failing_handler_example =
    process-failing_handler breaking breaking_contract (λ e. e ≡ BoxError.foreign 3) ⊥
      breaking-ClaimsAndRollsBack failing_handler
      (record { run_lem = λ conn d. record { at = λ w h. (h, refl) } }) m2 (world_of known_db) refl
