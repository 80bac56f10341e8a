-- ===== src/Io.antt =====
-- Asynchronous code, awaited step by step: an action on the world `W` (the databases, the pools and
-- what a handler's closure captures), which ends in one of three ways. `stop` is an await that
-- never resumes: a panic, or the future dropped while it waits.
pub mod Triple
pub mod Laws
use txbox.Common.{Option, none, some}
use txbox.Result.{Result, ok, err}

pub data Flow (E A : Type 0) : Type 0 where
  ret : A → Flow E A
  fail : E → Flow E A
  stop : Flow E A

abbrev pub Io : Type 0 → Type 0 → Type 0 → Type 0
Io W E A = W → Flow E A × W

module _ {W E A : Type 0} where
  abbrev pub pure : A → Io W E A
  pure a w = (ret a, w)

  abbrev pub throw : E → Io W E A
  throw e w = (fail e, w)

  -- A panic.
  abbrev pub panic : Io W E A
  panic w = (stop, w)

  abbrev pub lift : Result E A → Io W E A
  lift (ok a) w = (ret a, w)
  lift (err e) w = (fail e, w)

module _ {W E A B : Type 0} where
  abbrev pub continue : Flow E A → (A → Io W E B) → Io W E B
  continue (ret a) f w = f a w
  continue (fail e) f w = (fail e, w)
  continue stop f w = (stop, w)

  -- `m.await?` and what follows.
  infixl 5 ◌>>=◌ ◌>>◌
  abbrev pub ◌>>=◌ : Io W E A → (A → Io W E B) → Io W E B
  ◌>>=◌ m f w = let (r, w') = m w in continue r f w'

  abbrev pub ◌>>◌ : Io W E A → Io W E B → Io W E B
  m >> k = m >>= λ _. k

module _ {E F A : Type 0} where
  abbrev pub with_error : (E → F) → Flow E A → Flow F A
  with_error f (ret a) = ret a
  with_error f (fail e) = fail (f e)
  with_error f stop = stop

module _ {W E F A : Type 0} where
  abbrev pub outcome : Flow E A → W → Flow F (Result E A) × W
  outcome (ret a) w = (ret (ok a), w)
  outcome (fail e) w = (ret (err e), w)
  outcome stop w = (stop, w)

  -- `m.await` with no `?`: the result is a value.
  abbrev pub attempt : Io W E A → Io W F (Result E A)
  attempt m w = let (r, w') = m w in outcome r w'

  -- `m.await.map_err(f)?`; with an `impl From`, the conversion that `?` makes.
  abbrev pub map_err : (E → F) → Io W E A → Io W F A
  map_err f m w = let (r, w') = m w in (with_error f r, w')

module _ {W E A : Type 0} where
  abbrev pub unwound : (W → W) → Flow E A → W → Flow E A × W
  unwound cleanup (ret a) w = (ret a, w)
  unwound cleanup (fail e) w = (fail e, cleanup w)
  unwound cleanup stop w = (stop, cleanup w)

  -- A local that `cleanup` drops, should `m` leave the function early.
  abbrev pub or_drop : (W → W) → Io W E A → Io W E A
  or_drop cleanup m w = let (r, w') = m w in unwound cleanup r w'
