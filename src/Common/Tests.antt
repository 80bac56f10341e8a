-- ===== src/Common/Tests.antt =====
-- Boolean tests, the conditional, and equality as an instance argument.
use Prim.Native.Nat.{ℕ, compare, Ordering}
use mathlib.Core.Path.{◌≡◌, refl}
use mathlib.Core.Logic.{◌↔◌, ◌≢◌, ◌⊎◌, inl, inr}
use mathlib.Core.Bool.{Bool, true, false}
use mathlib.Core.Option.{Option, none, some}
use native.Mathlib.Omega.{arith}

abbrev pub ltb : ℕ → ℕ → Bool
ltb a b = elim (compare a b) [ Ordering.lt ↦ true | _ ↦ false ]

abbrev pub leb : ℕ → ℕ → Bool
leb a b = elim (compare a b) [ Ordering.gt ↦ false | _ ↦ true ]

abbrev pub nat_beq : ℕ → ℕ → Bool
nat_beq a b = elim (compare a b) [ Ordering.eq ↦ true | _ ↦ false ]

infix 1 if◌then◌else◌
abbrev pub if◌then◌else◌ {ℓ} : {A : Type ℓ} → Bool → A → A → A
if true then x else y = x
if false then x else y = y

pub nat_beq_iff : (a b : ℕ) → (nat_beq a b ≡ true) ↔ (a ≡ b)
nat_beq_iff a b = ground arith

-- `PartialEq` of the source's types: the test, which agrees with equality.
pub record PartialEq {κ} (B : Type κ) : Type κ where
  pub eq : B → B → Bool
  pub eq_reflects : (x y : B) → (eq x y ≡ true) ↔ (x ≡ y)

-- To split on a computed value and keep the equation.
pub Bool-cases : (b : Bool) → (b ≡ true) ⊎ (b ≡ false)
Bool-cases true = inl refl
Bool-cases false = inr refl

pub Option-cases {ℓ} : {A : Type ℓ} (o : Option A) → (o ≡ none) ⊎ ((a : A) × (o ≡ some a))
Option-cases none = inl refl
Option-cases (some a) = inr (a, refl)

instance abbrev pub nat_eq : PartialEq ℕ
nat_eq = record { eq = nat_beq; eq_reflects = nat_beq_iff }

pub bool_beq_iff : (a b : Bool) → ((if a then b else if b then false else true) ≡ true) ↔ (a ≡ b)
bool_beq_iff a b = ground arith

instance abbrev pub bool_eq : PartialEq Bool
bool_eq = record {
  eq = λ a b. if a then b else if b then false else true;
  eq_reflects = bool_beq_iff;
}

infix 50 ◌==◌
abbrev pub ◌==◌ {κ} : {B : Type κ} ⦃q : PartialEq B⦄ → B → B → Bool
◌==◌ ⦃q⦄ x y = q.eq x y

module _ {ℓ} {A : Type ℓ} ⦃e : PartialEq A⦄ where
  pub beq_self : (a : A) → (a == a) ≡ true
  beq_self a = (e.eq_reflects a a).1 refl

  pub beq_ne : (a b : A) → a ≢ b → (a == b) ≡ false
  beq_ne a b h = elim (Bool-cases (a == b)) [
    | inl p ↦ absurd (h ((e.eq_reflects a b).0 p))
    | inr p ↦ p
  ]
