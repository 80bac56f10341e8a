-- ===== src/Io/Laws.antt =====
-- Chains of awaits: grouped differently, or with equal continuations, they run alike.
use txbox.Common.{◌≡◌, refl}
use txbox.Io.{Flow, ret, fail, stop, Io, pure, ◌>>=◌, continue}

module _ {W E A B : Type 0} where
  continue-cong :
      {f g : A → Io W E B}
      → ((a : A) (w : W) → f a w ≡ g a w)
      → (r : Flow E A) (w : W) → continue r f w ≡ continue r g w
  continue-cong h (ret a) w = h a w
  continue-cong h (fail e) w = refl
  continue-cong h stop w = refl

  pub bind-cong :
      {f g : A → Io W E B} (m : Io W E A)
      → ((a : A) (w : W) → f a w ≡ g a w)
      → (w : W) → (m >>= f) w ≡ (m >>= g) w
  bind-cong m h w = continue-cong h (m w).0 (m w).1

module _ {W E A B C : Type 0} where
  continue-continue :
      (f : A → Io W E B) (g : B → Io W E C) (r : Flow E A) (w : W)
      → continue (continue r f w).0 g (continue r f w).1 ≡ continue r (λ a. f a >>= g) w
  continue-continue f g (ret a) w = refl
  continue-continue f g (fail e) w = refl
  continue-continue f g stop w = refl

  pub bind-bind :
      (m : Io W E A) (f : A → Io W E B) (g : B → Io W E C) (w : W)
      → ((m >>= f) >>= g) w ≡ (m >>= λ a. f a >>= g) w
  bind-bind m f g w = continue-continue f g (m w).0 (m w).1

module _ {W E A : Type 0} where
  continue-pure : (r : Flow E A) (w : W) → continue r pure w ≡ (r, w)
  continue-pure (ret a) w = refl
  continue-pure (fail e) w = refl
  continue-pure stop w = refl

  pub bind-pure : (m : Io W E A) (w : W) → (m >>= pure) w ≡ m w
  bind-pure m w = continue-pure (m w).0 (m w).1
