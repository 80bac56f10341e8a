-- ===== src/Common/Keys.antt =====
-- Finite maps as association lists, for `HashMap`: no operation of the program reads its order.
use mathlib.Core.Path.{◌≡◌, refl}
use mathlib.Core.Option.{Option, none, some}
use mathlib.Core.List.{List, [], ◌∷◌}
use native.Mathlib.Omega.{arith}
use txbox.Common.Tests.{PartialEq, ◌==◌, if◌then◌else◌, beq_self}

module _ {ℓ κ} {K : Type ℓ} {V : Type κ} ⦃e : PartialEq K⦄ where
  abbrev pub lookup : K → List (K × V) → Option V
  lookup k [] = none
  lookup k ((j, v) ∷ m) = if k == j then some v else lookup k m

  -- `HashMap::insert`: the new map and the value that was there.
  abbrev pub put : K → V → List (K × V) → List (K × V)
  put k v [] = (k, v) ∷ []
  put k v ((j, w) ∷ m) = let rest = put k v m in if k == j then (k, v) ∷ m else (j, w) ∷ rest

  abbrev pub insert : K → V → List (K × V) → Option V × List (K × V)
  insert k v m = (lookup k m, put k v m)

  pub lookup-put :
      (k j : K) (v : V) (m : List (K × V))
      → lookup j (put k v m) ≡ (if j == k then some v else lookup j m)
  lookup-put k j v [] = refl
  lookup-put k j v ((i, w) ∷ m) = ground (
    arith,
    e.eq_reflects k i,
    e.eq_reflects j i,
    e.eq_reflects j k,
    beq_self j,
    lookup-put k j v m,
  )
