-- ===== src/Common/Sort.antt =====
-- `slice::sort_unstable_by` and `Vec::dedup`.
use Prim.Native.Nat.{Ordering}
use mathlib.Core.List.{List, [], ◌∷◌}
use txbox.Common.Tests.{PartialEq, ◌==◌, if◌then◌else◌}

module _ {ℓ} {A : Type ℓ} where
  -- Where `x` goes before the sorted `y ∷ ys`, given the rest in the other case. Elements that
  -- compare as equal are interchangeable in an unstable sort.
  abbrev pub place : Ordering → A → A → List A → List A → List A
  place Ordering.lt x y ys rest = x ∷ y ∷ ys
  place Ordering.eq x y ys rest = x ∷ y ∷ ys
  place Ordering.gt x y ys rest = y ∷ rest

  unfoldable pub insert_by : (A → A → Ordering) → A → List A → List A
  insert_by cmp x [] = x ∷ []
  insert_by cmp x (y ∷ ys) = place (cmp x y) x y ys (insert_by cmp x ys)

  unfoldable pub sort_unstable_by : (A → A → Ordering) → List A → List A
  unfolding insert_by
  sort_unstable_by cmp [] = []
  sort_unstable_by cmp (x ∷ xs) = insert_by cmp x (sort_unstable_by cmp xs)

module _ {ℓ} {A : Type ℓ} ⦃e : PartialEq A⦄ where
  -- What is kept of the elements after `x`.
  unfoldable pub dedup_after : A → List A → List A
  dedup_after x [] = []
  dedup_after x (y ∷ ys) =
      let skip = dedup_after x ys in
      let keep = dedup_after y ys in if y == x then skip else y ∷ keep

  unfoldable pub dedup : List A → List A
  unfolding dedup_after
  dedup [] = []
  dedup (x ∷ xs) = x ∷ dedup_after x xs
