-- ===== src/Tests/Batch.antt =====
-- `Consumer::claim_many` and `process_many`.
use txbox.Common.{ℕ, List, [], ◌∷◌, ◌≡◌, ◌≢◌, contains, ◌==◌, none, length, Bool-cases, inl, inr}
use txbox.Consumer.{claim_many, unique_ids, answers_from}
use txbox.Consumer.Answers.{answers_from-ne_stop}
use txbox.Consumer.Many.{process_many}
use txbox.Consumer.Many.Acks.{Aligned, is_ok}
use txbox.Consumer.Many.Runs.{Processed}
use txbox.Consumer.Outcomes.{claim_many-each, process_many-acks, process_many_complete}
use txbox.Consumer.Unique.{unique_ids_lem}
use txbox.Io.{stop}
use txbox.Io.Triple.{Triple, Gives}
use txbox.Sql.{execute}
use txbox.Sqlite
use txbox.Store.Reliable.{ReliableSavepoints}
use txbox.Str.{str, str_eq}
use txbox.Store.Contract.{IsAscending, add_all, claim_each}
use txbox.Tests.Fixture.{
  shop, shop_contract, shop_reliable, shop_savepoints, shop_savepoint_contract, m1, m2, m3,
  known_db, world_of, billing, batch_handler, batch_handler-BatchHandlerContract, CountPost,
  CountFail, CountPost-keeps,
}
use txbox.Types.{Claim, MessageId, message_id_eq}

-- "m1" is known, "m2" fails, and both are repeated.
abbrev batch : List MessageId
batch = m3 ∷ m1 ∷ m2 ∷ m2 ∷ m3 ∷ []

claim_many-each_example :
    Gives
      (world_of known_db)
      (claim_many shop tt batch)
      (λ ks w'.
        (w'.committed ≡ known_db)
        × (w'.seen ≡ add_all billing batch known_db)
        × (ks ≡ claim_each billing batch known_db))
      (λ _ w'. w'.committed ≡ known_db)
claim_many-each_example = claim_many-each shop shop_contract tt batch (world_of known_db)

process_many-acks_example :
    Gives
      (world_of known_db)
      (process_many shop shop_savepoints batch batch_handler)
      (λ rs w'. Aligned {E = ℕ} (λ m r. w'.committed.row billing m ≡ is_ok r) batch rs)
      (λ _ _. Unit {0})
process_many-acks_example =
    process_many-acks shop shop_contract shop_savepoints shop_savepoint_contract batch_handler
      CountPost CountFail batch (world_of known_db) batch_handler-BatchHandlerContract
      CountPost-keeps

unique_ids_lem_example :
    IsAscending (unique_ids batch)
    × ((a : MessageId) → contains (unique_ids batch) a ≡ contains batch a)
unique_ids_lem_example = unique_ids_lem batch

answers_from-ne_stop_example :
    (answers_from {E = ℕ} batch
      (unique_ids batch)
      (Claim.fresh ∷ Claim.duplicate ∷ Claim.fresh ∷ [])
      (world_of known_db)).0
    ≢ stop
answers_from-ne_stop_example =
    answers_from-ne_stop batch (Claim.fresh ∷ Claim.duplicate ∷ Claim.fresh ∷ [])
      (world_of known_db)

pub shop_savepoints_reliable :
    ReliableSavepoints shop.store shop_savepoints shop_contract shop_savepoint_contract ⊥
unfolding execute Sqlite.unclaim
shop_savepoints_reliable = record {
  savepoint_lem = λ conn. record { at = λ w h. tt };
  release_and_savepoint_lem = λ conn u. record { at = λ w h. tt };
  release_lem = λ conn u. record { at = λ w h. tt };
  rollback_to_lem = λ conn u. record { at = λ w h. rw h tt };
  unclaim_lem = λ conn c m u. record { at = λ w h. tt };
}

batch_handler_returns :
    (conn : Unit {0}) (m : MessageId)
    → Triple (λ _. Unit {0}) (batch_handler conn m) (λ _ _. Unit {0}) (λ x _. x ≡ none → ⊥)
batch_handler_returns conn m = record {
  at = λ w h. elim (Bool-cases (m.as_str == str "m2")) [
    | inl bad ↦ rw bad (λ e. cc)
    | inr good ↦ rw good tt
  ];
}

process_many_complete_example :
    Gives
      (world_of known_db)
      (process_many shop shop_savepoints batch batch_handler)
      (λ rs w'.
        Processed {E = ℕ} billing CountPost CountFail batch known_db rs w'.committed
        × (length rs ≡ length batch))
      (λ _ _. ⊥)
process_many_complete_example =
    process_many_complete shop shop_contract shop_savepoints shop_savepoint_contract batch_handler
      CountPost CountFail ⊥ batch (world_of known_db) batch_handler-BatchHandlerContract
      shop_reliable shop_savepoints_reliable batch_handler_returns
