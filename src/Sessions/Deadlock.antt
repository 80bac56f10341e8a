-- ===== src/Sessions/Deadlock.antt =====
-- Batches that are sorted before they are claimed do not deadlock.
use txbox.Common.{
  ℕ, zero, suc, ◌+◌, ◌≤◌, ◌<◌, true, ◌≡◌, ◌≢◌, ◌⊎◌, inl, inr, refl, sym, subst, List, [], ◌∷◌,
  contains, All, Ordering, ◌==◌, nat_eq, nat_beq_iff, arith, Bool-cases,
}
use txbox.Consumer.Taken.{rows_taken_lem}
use txbox.Consumer.Unique.{unique_ids-IsAscending}
use txbox.Sessions.Invariant.{update-all}
use txbox.Sessions.Batches.{Batch, resting, batch, Free, Move, takes, ends, Step, Reach}
use txbox.Store.Contract.{IsAscending}
use txbox.Str.{cmp}
use txbox.Str.Order.{cmp_trans, cmp_self}
use txbox.Types.{Claim, ConsumerId, MessageId, message_id_eq, message_id_beq_iff}

abbrev Below : MessageId → MessageId → Type 0
Below a b = cmp a.as_str b.as_str ≡ Ordering.lt

-- A session has still to take rows past all that it holds, in ascending order.
pub record Ordered (b : Batch) : Type 0 where
  pub ascending : IsAscending b.left
  pub past : (h : MessageId) → contains b.held h ≡ true → All (Below h) b.left

Ordered-resting : Ordered resting
Ordered-resting = record { ascending = tt; past = λ h e. tt }

Ordered-batch :
    (c : ConsumerId) (reply : MessageId → Claim) (ids : List MessageId)
    → Ordered (batch c reply ids)
Ordered-batch c reply ids = record {
  ascending = subst IsAscending (sym (rows_taken_lem c reply ids)) (unique_ids-IsAscending ids);
  past = λ h e. ground arith;
}

Ordered-takes :
    (b : Batch) (m : MessageId) (ms : List MessageId)
    → b.left ≡ m ∷ ms
    → Ordered b
    → Ordered (record { held = m ∷ b.held; left = ms })
Ordered-takes b m ms e o =
    let asc : IsAscending (m ∷ ms) = subst IsAscending e o.ascending in
    record {
      ascending = asc.1;
      past = λ h q. elim (Bool-cases (h == m)) [
        | inl same ↦ subst (λ x. All (Below x) ms) (sym ((message_id_beq_iff h m).0 same)) asc.0
        | inr other ↦ (subst (All (Below h)) e (o.past h (ground (arith, q, other)))).1
      ];
    }

Move-Ordered :
    (n : ℕ) (s : ℕ → Batch) (i : ℕ) (b : Batch) → Move n s i b → Ordered (s i) → Ordered b
Move-Ordered n s i b (takes m ms e free) o = Ordered-takes (s i) m ms e o
Move-Ordered n s i b (ends h hs q e) o = Ordered-resting

Step-Ordered :
    {c : ConsumerId} (n : ℕ) (s t : ℕ → Batch)
    → ((i : ℕ) → Ordered (s i))
    → Step c n s t
    → (i : ℕ) → Ordered (t i)
Step-Ordered n s t o (Step.moves j {b} lt mv) =
    update-all (λ _. Ordered) s j b (λ k ne. o k) (Move-Ordered n s j b mv (o j))
Step-Ordered n s t o (Step.leaves j lt) =
    update-all (λ _. Ordered) s j resting (λ k ne. o k) Ordered-resting
Step-Ordered {c} n s t o (Step.begins j reply ids lt) =
    update-all (λ _. Ordered) s j (batch c reply ids) (λ k ne. o k) (Ordered-batch c reply ids)

Reach-Ordered : {c : ConsumerId} (n : ℕ) (s : ℕ → Batch) → Reach c n s → (i : ℕ) → Ordered (s i)
Reach-Ordered n s Reach.start = λ i. Ordered-resting
Reach-Ordered n s (Reach.later {s = t} r step) = Step-Ordered n t s (Reach-Ordered n t r) step

-- The first of the sessions that holds the row, or none.
holder :
    (n k : ℕ) (s : ℕ → Batch) (i : ℕ) (m : MessageId)
    → k ≤ n
    → ((j : ℕ) × (j < n) × (j ≢ i) × (contains (s j).held m ≡ true)) ⊎ Free k s i m
holder n zero s i m le = inr (λ j lt ne. absurd (omega (arith, lt)))
holder n (suc k) s i m le = elim (holder n k s i m (omega arith)) [
  | inl found ↦ inl found
  | inr before ↦ elim (Bool-cases (k == i)) [
    | inl me ↦ inr (λ j lt ne. ground (arith, before j, nat_beq_iff k i))
    | inr other ↦ elim (Bool-cases (contains (s k).held m)) [
      | inl holds ↦ inl (k, omega arith, (λ e. ground (arith, other, nat_beq_iff k i, e)), holds)
      | inr free ↦ inr (λ j lt ne. ground (arith, before j, free))
    ]
  ]
]

-- How many sessions want a row past `m` next.
abbrev wants_past : MessageId → List MessageId → ℕ
wants_past m [] = 0
wants_past m (x ∷ xs) = elim (cmp m.as_str x.as_str) [ Ordering.lt ↦ 1 | _ ↦ 0 ]

abbrev past_count : ℕ → (ℕ → Batch) → MessageId → ℕ
past_count zero s m = 0
past_count (suc n) s m = wants_past m (s n).left + past_count n s m

wants_past-own :
    (m x : MessageId) (xs ys : List MessageId)
    → Below m x
    → ys ≡ x ∷ xs
    → (wants_past x ys ≡ 0) × (wants_past m ys ≡ 1)
wants_past-own m x xs ys h e = (ground (arith, e, cmp_self x.as_str), ground (arith, e, h))

wants_past-le :
    (m x : MessageId) → Below m x → (xs : List MessageId) → wants_past x xs ≤ wants_past m xs
wants_past-le m x h [] = omega arith
wants_past-le m x h (y ∷ xs) = ground (arith, cmp_trans m.as_str x.as_str y.as_str h)

past_count-le :
    (n : ℕ) (s : ℕ → Batch) (m x : MessageId) → Below m x → past_count n s x ≤ past_count n s m
past_count-le zero s m x h = omega arith
past_count-le (suc n) s m x h =
    omega (arith, wants_past-le m x h (s n).left, past_count-le n s m x h)

past_count-lt :
    (n : ℕ) (s : ℕ → Batch) (m x : MessageId) (xs : List MessageId) (j : ℕ)
    → Below m x
    → j < n
    → (s j).left ≡ x ∷ xs
    → past_count n s x < past_count n s m
past_count-lt zero s m x xs j h lt e = omega arith
past_count-lt (suc n) s m x xs j h lt e = elim (Bool-cases (j == n)) [
  | inl same ↦
      let own = wants_past-own m x xs (s n).left h (ground (arith, e, nat_beq_iff j n)) in
      omega (arith, own.0, own.1, past_count-le n s m x h)
  | inr other ↦ omega (
    arith,
    wants_past-le m x h (s n).left,
    past_count-lt n s m x xs j h (ground (arith, other, lt, nat_beq_iff j n)) e,
  )
]

-- Some session can move.
abbrev pub SomeMove : ℕ → (ℕ → Batch) → Type 0
SomeMove n s = (j : ℕ) × (j < n) × (b : Batch) × Move n s j b

pub left_cases :
    (xs : List MessageId) → (xs ≡ []) ⊎ ((x : MessageId) × (ys : List MessageId) × (xs ≡ x ∷ ys))
left_cases [] = inl refl
left_cases (x ∷ xs) = inr (x, xs, refl)

some_row :
    (m : MessageId) (xs : List MessageId)
    → contains xs m ≡ true
    → (h : MessageId) × (hs : List MessageId) × (xs ≡ h ∷ hs)
some_row m [] e = ground arith
some_row m (x ∷ xs) e = (x, xs, refl)

-- From a session that wants the row `m`, to the holder of `m`, who wants a row past it, and on.
follow :
    (n : ℕ) (s : ℕ → Batch) (o : (i : ℕ) → Ordered (s i)) (fuel i : ℕ) (m : MessageId)
    (ms : List MessageId)
    → past_count n s m < fuel
    → i < n
    → (s i).left ≡ m ∷ ms
    → SomeMove n s
follow n s o zero i m ms le lt e = absurd (omega (arith, le))
follow n s o (suc fuel) i m ms le lt e = elim (holder n n s i m (omega arith)) [
  | inr free ↦ (i, lt, _, takes m ms e free)
  | inl (j, below, ne, holds) ↦ elim (left_cases (s j).left) [
    | inl all ↦ let (h, hs, q) = some_row m (s j).held holds in (j, below, _, ends h hs q all)
    | inr (x, xs, q) ↦
        let past : All (Below m) (x ∷ xs) = subst (All (Below m)) q ((o j).past m holds) in
        follow n s o fuel j x xs (omega (arith, le, past_count-lt n s m x xs j past.0 below q))
          below q
  ]
]

-- Sessions of one consumer that claim batches through `Consumer::claim_many`, over a backend that
-- keeps the default loop of claims, each of whose rows is taken when the call has it claimed and is
-- held until its transaction ends, do not deadlock, in whatever order each call was given its ids: as
-- long as some session has a transaction with rows still to take, some session with a transaction can
-- move by itself, that is, its next row is held by nobody else, or it holds all its rows and can end.
pub no_deadlock :
    {c : ConsumerId} (n : ℕ) (s : ℕ → Batch) (i : ℕ) (m : MessageId) (ms : List MessageId)
    → Reach c n s
    → i < n
    → (s i).left ≡ m ∷ ms
    → SomeMove n s
no_deadlock n s i m ms r lt e =
    follow n s (Reach-Ordered n s r) (suc (past_count n s m)) i m ms (omega arith) lt e
