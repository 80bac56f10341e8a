-- ===== src/Result.antt =====
-- Rust's `Result<A, E>` and `?`.

use txbox.Common.{Option, none, some}

pub data Result {ℓ} (E A : Type ℓ) : Type ℓ where
  ok : A → Result E A
  err : E → Result E A

infixl 5 ◌>>=◌ ◌>>◌
abbrev pub ◌>>=◌ {ℓ} : {E A B : Type ℓ} → Result E A → (A → Result E B) → Result E B
ok a >>= f = f a
err e >>= f = err e

abbrev pub ◌>>◌ : {E B : Type 0} → Result E (Unit {0}) → Result E B → Result E B
m >> k = m >>= λ _. k

-- `Result::ok`
abbrev pub some_ok {ℓ} : {E A : Type ℓ} → Result E A → Option A
some_ok (ok a) = some a
some_ok (err e) = none
