-- ===== src/Sessions/Drain.antt =====
-- Batches that several sessions claim at once all come to their end.
use txbox.Common.{
  ℕ, zero, suc, ◌+◌, ◌*◌, ◌<◌, ◌≡◌, ◌⊎◌, inl, inr, refl, ap, [], ◌∷◌, length, arith, Bool-cases,
  ◌==◌, nat_eq, nat_beq_iff,
}
use txbox.Sessions.{update}
use txbox.Sessions.Batches.{
  Batch, resting, Move, takes, ends, Reach, moves, later, Moves, stay, onward,
}
use txbox.Types.{ConsumerId}
use txbox.Sessions.Deadlock.{no_deadlock, left_cases, SomeMove}

-- What a session has still to do: to take a row is twice as much as to end.
abbrev to_do : Batch → ℕ
to_do b = 2 * length b.left + elim b.held [ [] ↦ 0 | _ ∷ _ ↦ 1 ]

abbrev total : ℕ → (ℕ → Batch) → ℕ
total zero s = 0
total (suc n) s = to_do (s n) + total n s

total-out :
    (n : ℕ) (s : ℕ → Batch) (i : ℕ) (b : Batch) → n < suc i → total n (update s i b) ≡ total n s
total-out zero s i b lt = refl
total-out (suc n) s i b lt =
    let here : update s i b n ≡ s n = ground (arith, nat_beq_iff n i, lt) in
    omega (arith, ap to_do here, total-out n s i b (omega (arith, lt)))

total-update :
    (n : ℕ) (s : ℕ → Batch) (i : ℕ) (b : Batch)
    → i < n
    → total n (update s i b) + to_do (s i) ≡ total n s + to_do b
total-update zero s i b lt = omega (arith, lt)
total-update (suc n) s i b lt = elim (Bool-cases (n == i)) [
  | inl same ↦
      let i_is : n ≡ i = (nat_beq_iff n i).0 same in
      let here : update s i b n ≡ b = ground (arith, same) in
      let own : s n ≡ s i = ap s i_is in
      omega (arith, ap to_do here, ap to_do own, total-out n s i b (omega (arith, i_is)))
  | inr other ↦
      let here : update s i b n ≡ s n = ground (arith, other) in
      omega
        (arith, ap to_do here, total-update n s i b (ground (arith, lt, other, nat_beq_iff n i)))
]

Move-to_do : (n : ℕ) (s : ℕ → Batch) (i : ℕ) (b : Batch) → Move n s i b → to_do b < to_do (s i)
Move-to_do n s i b (takes m ms e free) = ground (arith, e)
Move-to_do n s i b (ends h hs q e) = ground (arith, q)

-- No session has a transaction.
abbrev pub AllRest : ℕ → (ℕ → Batch) → Type 0
AllRest n s = (i : ℕ) → i < n → s i ≡ resting

can_move :
    {c : ConsumerId} (n k : ℕ) (s : ℕ → Batch)
    → Reach c n s
    → k < suc n
    → SomeMove n s ⊎ AllRest k s
can_move n zero s r lt = inr (λ i lt'. absurd (omega (arith, lt')))
can_move n (suc k) s r lt = elim (left_cases (s k).left) [
  | inr (x, xs, q) ↦ inl (no_deadlock n s k x xs r (omega (arith, lt)) q)
  | inl none_left ↦ elim (left_cases (s k).held) [
    | inr (h, hs, q) ↦ inl (k, omega (arith, lt), _, ends h hs q none_left)
    | inl none_held ↦ elim (can_move n k s r (omega (arith, lt))) [
      | inl found ↦ inl found
      | inr rest ↦ inr (λ i below. ground (arith, rest i, none_left, none_held, below))
    ]
  ]
]

drain :
    {c : ConsumerId} (n fuel : ℕ) (s : ℕ → Batch)
    → Reach c n s
    → total n s < fuel
    → (t : ℕ → Batch) × Moves n s t × AllRest n t
drain n zero s r lt = absurd (omega (arith, lt))
drain n (suc fuel) s r lt = elim (can_move n n s r (omega arith)) [
  | inr done ↦ (s, stay, done)
  | inl (i, below, b, mv) ↦
      let (t, path, done) =
        drain n fuel (update s i b) (later r (moves i below mv))
          (omega (arith, lt, total-update n s i b below, Move-to_do n s i b mv)) in
      (t, onward i below mv path, done)
]

-- Sessions of one consumer that claim batches through `Consumer::claim_many`, over a backend that
-- keeps the default loop of claims, each of whose rows is taken when the call has it claimed and is
-- held until its transaction ends, can all come to their end by themselves, with no call that gives
-- up: from where they stand, whatever has happened before, some moves of theirs leave no session with
-- a transaction.
pub batches-AllRest :
    {c : ConsumerId} (n : ℕ) (s : ℕ → Batch)
    → Reach c n s
    → (t : ℕ → Batch) × Moves n s t × AllRest n t
batches-AllRest n s r = drain n (suc (total n s)) s r (omega arith)
