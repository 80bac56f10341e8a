-- ===== src/Io/Triple.antt =====
-- What an action ensures, by how it ends. `R (some e)` holds after the error `e`, `R none` after a
-- stop.
use txbox.Common.{Option, none, some, ◌≡◌, refl}
use txbox.Result.{Result, ok, err}
use txbox.Io.{
  Flow, ret, fail, stop, Io, pure, throw, ◌>>=◌, continue, attempt, outcome, or_drop, unwound,
  map_err, with_error,
}

module _ {W E A : Type 0} where
  abbrev pub Ends : (A → W → Type 0) → (Option E → W → Type 0) → Flow E A → W → Type 0
  Ends Q R (ret a) w = Q a w
  Ends Q R (fail e) w = R (some e) w
  Ends Q R stop w = R none w

  -- How the action ends, run in the world `w`.
  abbrev pub Gives : W → Io W E A → (A → W → Type 0) → (Option E → W → Type 0) → Type 0
  Gives w m Q R = Ends Q R (m w).0 (m w).1

  pub record Triple (P : W → Type 0) (m : Io W E A) (Q : A → W → Type 0) (R : Option E → W → Type 0)
      : Type 0 where
    pub at : (w : W) → P w → Ends Q R (m w).0 (m w).1

  -- What `attempt` hands on: the postcondition of the case that came.
  abbrev pub Attempted : (A → W → Type 0) → (Option E → W → Type 0) → Result E A → W → Type 0
  Attempted Q R (ok a) w = Q a w
  Attempted Q R (err e) w = R (some e) w

module _ {W E A : Type 0} (Q : A → W → Type 0) (R : Option E → W → Type 0) where
  Ends-mono :
      (Q' : A → W → Type 0) (R' : Option E → W → Type 0) (r : Flow E A) (w : W)
      → ((a : A) (w : W) → Q a w → Q' a w)
      → ((x : Option E) (w : W) → R x w → R' x w)
      → Ends Q R r w
      → Ends Q' R' r w
  Ends-mono Q' R' (ret a) w f g h = f a w h
  Ends-mono Q' R' (fail e) w f g h = g (some e) w h
  Ends-mono Q' R' stop w f g h = g none w h

  Ends-continue :
      {B : Type 0} (Q' : B → W → Type 0) (f : A → Io W E B) (r : Flow E A) (w : W)
      → ((a : A) → Triple (Q a) (f a) Q' R)
      → Ends Q R r w
      → Ends Q' R (continue r f w).0 (continue r f w).1
  Ends-continue Q' f (ret a) w k h = (k a).at w h
  Ends-continue Q' f (fail e) w k h = h
  Ends-continue Q' f stop w k h = h

  Ends-outcome :
      {F : Type 0} (R' : Option F → W → Type 0) (r : Flow E A) (w : W)
      → ((w : W) → R none w → R' none w)
      → Ends Q R r w
      → Ends (Attempted Q R) R' (outcome {F = F} r w).0 (outcome {F = F} r w).1
  Ends-outcome R' (ret a) w k h = h
  Ends-outcome R' (fail e) w k h = h
  Ends-outcome R' stop w k h = k w h

  Ends-with_error :
      {F : Type 0} (R' : Option F → W → Type 0) (f : E → F) (r : Flow E A) (w : W)
      → ((e : E) (w : W) → R (some e) w → R' (some (f e)) w)
      → ((w : W) → R none w → R' none w)
      → Ends Q R r w
      → Ends Q R' (with_error f r) w
  Ends-with_error R' f (ret a) w k l h = h
  Ends-with_error R' f (fail e) w k l h = k e w h
  Ends-with_error R' f stop w k l h = l w h

  Ends-unwound :
      (R' : Option E → W → Type 0) (cleanup : W → W) (r : Flow E A) (w : W)
      → ((x : Option E) (w : W) → R x w → R' x (cleanup w))
      → Ends Q R r w
      → Ends Q R' (unwound cleanup r w).0 (unwound cleanup r w).1
  Ends-unwound R' cleanup (ret a) w k h = h
  Ends-unwound R' cleanup (fail e) w k h = k (some e) w h
  Ends-unwound R' cleanup stop w k h = k none w h

module _ {W E A : Type 0} {P : W → Type 0} {Q : A → W → Type 0} {R : Option E → W → Type 0} where
  pub Triple-pure : (a : A) → ((w : W) → P w → Q a w) → Triple P (pure a) Q R
  Triple-pure a h = record { at = h }

  pub Triple-throw : (e : E) → ((w : W) → P w → R (some e) w) → Triple P (throw e) Q R
  Triple-throw e h = record { at = h }

  -- An action that is never reached.
  pub Triple-absurd : {m : Io W E A} → ((w : W) → P w → ⊥) → Triple P m Q R
  Triple-absurd h = record { at = λ w p. absurd (h w p) }

  -- A fact that the precondition gives is known throughout.
  pub Triple-fact :
      {F : Type 0} {m : Io W E A} → ((w : W) → P w → F) → (F → Triple P m Q R) → Triple P m Q R
  Triple-fact f t = record { at = λ w p. (t (f w p)).at w p }

  -- A value that the world has before the action, named.
  pub Triple-fix :
      {X : Type 0} {m : Io W E A} (f : W → X)
      → ((x : X) → Triple (λ w. P w × (f w ≡ x)) m Q R)
      → Triple P m Q R
  Triple-fix f t = record { at = λ w p. (t (f w)).at w (p, refl) }

  pub Triple-mono :
      {P' : W → Type 0} {Q' : A → W → Type 0} {R' : Option E → W → Type 0} {m : Io W E A}
      → Triple P m Q R
      → ((w : W) → P' w → P w)
      → ((a : A) (w : W) → Q a w → Q' a w)
      → ((x : Option E) (w : W) → R x w → R' x w)
      → Triple P' m Q' R'
  Triple-mono {Q'} {R'} {m} t pre f g = record {
    at = λ w h. Ends-mono Q R Q' R' (m w).0 (m w).1 f g (t.at w (pre w h));
  }

  pub Triple-bind :
      {B : Type 0} {Q' : B → W → Type 0} {m : Io W E A} {f : A → Io W E B}
      → Triple P m Q R
      → ((a : A) → Triple (Q a) (f a) Q' R)
      → Triple P (m >>= f) Q' R
  Triple-bind {Q'} {m} {f} t k = record {
    at = λ w h. Ends-continue Q R Q' f (m w).0 (m w).1 k (t.at w h);
  }

  pub Triple-attempt :
      {F : Type 0} {R' : Option F → W → Type 0} {m : Io W E A}
      → Triple P m Q R
      → ((w : W) → R none w → R' none w)
      → Triple P (attempt m) (Attempted Q R) R'
  Triple-attempt {R'} {m} t k = record {
    at = λ w h. Ends-outcome Q R R' (m w).0 (m w).1 k (t.at w h);
  }

  pub Triple-map_err :
      {F : Type 0} {R' : Option F → W → Type 0} {m : Io W E A} (f : E → F)
      → Triple P m Q R
      → ((e : E) (w : W) → R (some e) w → R' (some (f e)) w)
      → ((w : W) → R none w → R' none w)
      → Triple P (map_err f m) Q R'
  Triple-map_err {R'} {m} f t k l = record {
    at = λ w h. Ends-with_error Q R R' f (m w).0 (m w).1 k l (t.at w h);
  }

  pub Triple-or_drop :
      {R' : Option E → W → Type 0} {m : Io W E A} (cleanup : W → W)
      → Triple P m Q R
      → ((x : Option E) (w : W) → R x w → R' x (cleanup w))
      → Triple P (or_drop cleanup m) Q R'
  Triple-or_drop {R'} {m} cleanup t k = record {
    at = λ w h. Ends-unwound Q R R' cleanup (m w).0 (m w).1 k (t.at w h);
  }

Ends-and :
    {W E A : Type 0} (Q S : A → W → Type 0) (R T : Option E → W → Type 0) (r : Flow E A) (w : W)
    → Ends Q R r w
    → Ends S T r w
    → Ends (λ a w. Q a w × S a w) (λ x w. R x w × T x w) r w
Ends-and Q S R T (ret a) w h k = (h, k)
Ends-and Q S R T (fail e) w h k = (h, k)
Ends-and Q S R T stop w h k = (h, k)

-- What two triples say of one action.
pub Triple-and :
    {W E A : Type 0} {P : W → Type 0} {Q S : A → W → Type 0} {R T : Option E → W → Type 0}
    {m : Io W E A}
    → Triple P m Q R
    → Triple P m S T
    → Triple P m (λ a w. Q a w × S a w) (λ x w. R x w × T x w)
Triple-and {Q} {S} {R} {T} {m} t u = record {
  at = λ w p. Ends-and Q S R T (m w).0 (m w).1 (t.at w p) (u.at w p);
}

Ends-always :
    {W E A : Type 0} (Q : W → Type 0) (r : Flow E A) (w : W) → Ends (λ _. Q) (λ _. Q) r w → Q w
Ends-always Q (ret a) w h = h
Ends-always Q (fail e) w h = h
Ends-always Q stop w h = h

-- What holds however the action ends.
pub Triple-always :
    {W E A : Type 0} {P : W → Type 0} (Q : W → Type 0) (m : Io W E A) (w : W)
    → Triple P m (λ _. Q) (λ _. Q)
    → P w
    → Q (m w).1
Triple-always Q m w t h = Ends-always Q (m w).0 (m w).1 (t.at w h)
