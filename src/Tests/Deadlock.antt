-- ===== src/Tests/Deadlock.antt =====
-- Two batches with the same messages, given in opposite orders, that two sessions claim at once.
use txbox.Common.{
  ℕ, zero, suc, ◌≡◌, ◌∙◌, ◌≢◌, ◌<◌, refl, false, contains, [], ◌∷◌, arith, dedup, sort_unstable_by,
}
use txbox.Consumer.{unique_ids}
use txbox.Consumer.Taken.{rows_taken, rows_taken_lem}
use txbox.Sessions.{update}
use txbox.Sessions.Batches.{
  Batch, resting, batch, Move, takes, Reach, start, later, moves, begins, Moves,
}
use txbox.Sessions.Deadlock.{no_deadlock, SomeMove}
use txbox.Sessions.Drain.{batches-AllRest, AllRest}
use txbox.Str.{cmp, bytes, utf8}
use txbox.Tests.Fixture.{m1, m2, billing}
use txbox.Types.{Claim, MessageId, message_id_eq}

abbrev all_new : MessageId → Claim
all_new m = Claim.fresh

-- Both have begun, and the first has taken the row of "m1".
abbrev both_begun : ℕ → Batch
both_begun =
    update (update (λ _. resting) 0 (batch billing all_new (m2 ∷ m1 ∷ []))) 1
      (batch billing all_new (m1 ∷ m2 ∷ []))

abbrev rivals : ℕ → Batch
rivals = update both_begun 0 (record { held = m1 ∷ []; left = m2 ∷ [] })

both_sorted :
    (unique_ids (m2 ∷ m1 ∷ []) ≡ m1 ∷ m2 ∷ []) × (unique_ids (m1 ∷ m2 ∷ []) ≡ m1 ∷ m2 ∷ [])
unfolding unique_ids cmp bytes utf8 dedup sort_unstable_by
both_sorted = (refl, refl)

opposite_orders :
    (rows_taken billing all_new (m2 ∷ m1 ∷ []) ≡ m1 ∷ m2 ∷ [])
    × (rows_taken billing all_new (m1 ∷ m2 ∷ []) ≡ m1 ∷ m2 ∷ [])
opposite_orders = (
  rows_taken_lem billing all_new (m2 ∷ m1 ∷ []) ∙ both_sorted.0,
  rows_taken_lem billing all_new (m1 ∷ m2 ∷ []) ∙ both_sorted.1,
)

nobody_holds : (j : ℕ) → j < 2 → j ≢ 0 → contains (both_begun j).held m1 ≡ false
nobody_holds zero lt ne = refl
nobody_holds (suc zero) lt ne = refl
nobody_holds (suc (suc j)) lt ne = absurd (omega (arith, lt))

first_takes : Move 2 both_begun 0 (record { held = m1 ∷ []; left = m2 ∷ [] })
first_takes = takes m1 (m2 ∷ []) opposite_orders.0 nobody_holds

rivals_reached : Reach billing 2 rivals
rivals_reached =
    later
      (later (later start (begins 0 all_new (m2 ∷ m1 ∷ []) (omega arith)))
        (begins 1 all_new (m1 ∷ m2 ∷ []) (omega arith)))
      (moves 0 (omega arith) first_takes)

no_deadlock_example : SomeMove 2 rivals
no_deadlock_example =
    no_deadlock 2 rivals 1 m1 (m2 ∷ []) rivals_reached (omega arith) opposite_orders.1

batches-AllRest_example : (t : ℕ → Batch) × Moves 2 rivals t × AllRest 2 t
batches-AllRest_example = batches-AllRest 2 rivals rivals_reached
