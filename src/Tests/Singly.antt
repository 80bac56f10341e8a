-- ===== src/Tests/Singly.antt =====
-- A batch against single calls.
use txbox.Common.{ℕ, suc, Bool, true, [], ◌∷◌, ◌≡◌, refl, ap, ◌==◌, Bool-cases, inl, inr}
use txbox.Consumer.Many.{process_many}
use txbox.Consumer.Many.Each.{EffectPost, EffectFail}
use txbox.Consumer.Many.Runs.{BatchHandlerContract}
use txbox.Consumer.Process.{HandlerContract}
use txbox.Consumer.Returns.{HandlerReturns}
use txbox.Consumer.Singly.{process_each, process_many-process_each}
use txbox.Io.Triple.{Gives}
use txbox.Str.{Str, str, str_eq}
use txbox.Tests.Batch.{shop_savepoints_reliable}
use txbox.Tests.Fixture.{
  shop, shop_contract, shop_savepoints, shop_savepoint_contract, shop_reliable, m1, m2, m3,
  known_db, world_of, billing, batch_handler, counted,
}
use txbox.Types.{MessageId}

abbrev count_one : MessageId → ℕ → ℕ
count_one m n = suc n

abbrev is_m2 : Str → Bool
is_m2 s = s == str "m2"

single-HandlerContract :
    (m : MessageId)
    → HandlerContract shop shop_contract
        (λ conn. batch_handler conn m)
        (EffectPost count_one is_m2 m)
single-HandlerContract m = record {
  run_lem = λ conn d v. record {
    at = λ w h. elim (Bool-cases (m.as_str == str "m2")) [
      | inl bad ↦ rw bad h.0
      | inr good ↦ rw good (h.0, (ap counted h.1, refl))
    ];
  };
}

single-HandlerReturns :
    (conn : Unit {0}) (m : MessageId)
    → HandlerReturns (is_m2 m.as_str ≡ true) ⊥ (batch_handler conn m)
single-HandlerReturns conn m = record {
  at = λ w h. elim (Bool-cases (m.as_str == str "m2")) [
    | inl bad ↦ rw bad refl
    | inr good ↦ rw good tt
  ];
}

batch-BatchHandlerContract :
    BatchHandlerContract shop shop_savepoints shop_contract shop_savepoint_contract batch_handler
      (EffectPost count_one is_m2)
      (EffectFail is_m2)
batch-BatchHandlerContract = record {
  run_lem = λ conn m d v. record {
    at = λ w h. elim (Bool-cases (m.as_str == str "m2")) [
      | inl bad ↦ rw bad (h.0, λ _. (h.2, refl))
      | inr good ↦ rw good (h.0, h.2, (ap counted h.1, refl))
    ];
  };
}

process_many-process_each_example :
    Gives
      (world_of known_db)
      (process_many shop shop_savepoints (m3 ∷ m1 ∷ m2 ∷ m2 ∷ m3 ∷ []) batch_handler)
      (λ rs w'.
        (w'.committed.app
          ≡ (process_each shop batch_handler
              (m3 ∷ m1 ∷ m2 ∷ m2 ∷ m3 ∷ [])
              (world_of known_db)).committed.app)
        × ((j : MessageId)
            → w'.committed.row billing j
              ≡ (process_each shop batch_handler
                    (m3 ∷ m1 ∷ m2 ∷ m2 ∷ m3 ∷ [])
                    (world_of known_db)).committed.row
                  billing j))
      (λ _ _. ⊥)
process_many-process_each_example =
    process_many-process_each shop shop_contract shop_reliable batch_handler count_one is_m2
      single-HandlerContract single-HandlerReturns shop_savepoints shop_savepoint_contract
      shop_savepoints_reliable batch-BatchHandlerContract (m3 ∷ m1 ∷ m2 ∷ m2 ∷ m3 ∷ [])
      (world_of known_db)
