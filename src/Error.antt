-- ===== src/Error.antt =====
-- src/error.rs: the errors of the library. `E` stands for the errors of other crates (sqlx, chrono,
-- getrandom, the application's handlers), which the library only boxes.
use txbox.Common.{ℕ}
use txbox.Str.{Str}

-- `InvalidId`.
pub data InvalidId : Type 0 where
  empty : InvalidId
  too_long : ℕ → ℕ → InvalidId
  scope_contains_separator : InvalidId
  surrounding_whitespace : InvalidId

mutual
  -- `Box<dyn Error + Send + Sync>`: an error of another crate, a text, an `InboxError`,
  -- or an `InvalidId`.
  pub data BoxError (E : Type 0) : Type 0 where
    foreign : E → BoxError E
    text : Str → BoxError E
    inbox : InboxError E → BoxError E
    rejected : InvalidId → BoxError E

  -- `InboxError`.
  pub data InboxError (E : Type 0) : Type 0 where
    backend : BoxError E → InboxError E
    handler : BoxError E → InboxError E
    contended : InboxError E
    invalid_id : InvalidId → InboxError E

abbrev pub HandlerError : Type 0 → Type 0
HandlerError E = BoxError E

-- `impl From<sqlx::Error> for InboxError`
unfoldable pub from_sqlx : {E : Type 0} → E → InboxError E
from_sqlx value = InboxError.backend (BoxError.foreign value)

-- `impl From<InvalidId> for InboxError`
unfoldable pub from_invalid_id : {E : Type 0} → InvalidId → InboxError E
from_invalid_id value = InboxError.invalid_id value
