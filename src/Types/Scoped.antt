-- ===== src/Types/Scoped.antt =====
-- Scoped message ids: which parts are accepted, and that two pairs of parts never share an id.
use txbox.Common.{
  ℕ, ◌+◌, ◌≡◌, false, ◌||◌, ◌∷◌, [], ◌++◌, arith, if◌then◌else◌, ltb, nat_eq, contains, ◌∙◌,
}
use txbox.Error.{InvalidId}
use txbox.Result.{Result, ok, err}
use txbox.Str.{Str, len}
use txbox.Str.Trim.{
  all_space, first_space, last_space, all_space-append, first_space-append, last_space-append,
  len-append, len-cons, length-utf8, is_empty-trim, len-trim,
}
use txbox.Types.{MessageId, scoped, message_max_len}

abbrev colon : ℕ
colon = b':'

-- The checks of one part, then what follows.
abbrev part_then : Str → Result InvalidId MessageId → Result InvalidId MessageId
part_then part next =
    if all_space part
    then err InvalidId.empty
    else if first_space part || last_space part
    then err InvalidId.surrounding_whitespace
    else next

-- What `scoped` answers, told without `trim` and without looking at the joined text.
abbrev pub scoped_verdict : Str → Str → Result InvalidId MessageId
scoped_verdict scope id =
    if contains scope colon
    then err InvalidId.scope_contains_separator
    else part_then scope (
        part_then id (
          if ltb message_max_len (len scope + 1 + len id)
          then err (InvalidId.too_long (len scope + 1 + len id) message_max_len)
          else ok (record { as_str = scope ++ (colon ∷ id) })))

len-joined : (scope id : Str) → len (scope ++ (colon ∷ id)) ≡ len scope + 1 + len id
len-joined scope id = rw len-append (omega (arith, len-cons colon id, length-utf8 colon))

all_space-joined :
    (scope id : Str) → all_space scope ≡ false → all_space (scope ++ (colon ∷ id)) ≡ false
all_space-joined scope id h = rw all_space-append (ground arith)

last_space-joined :
    (scope id : Str) → all_space id ≡ false → last_space (scope ++ (colon ∷ id)) ≡ last_space id
last_space-joined scope id h =
    last_space-append scope (colon ∷ id) (ground arith) ∙ last_space-append (colon ∷ []) id h

-- `scoped` answers by the first of these that holds: the scope has a colon; the scope, then the id,
-- is blank or has whitespace at an end; the parts and the colon pass 512 bytes together. Otherwise
-- the id is the scope, a colon and the id.
pub scoped_lem : (scope id : Str) → scoped scope id ≡ scoped_verdict scope id
unfolding scoped
scoped_lem scope id = ground (
  arith,
  is_empty-trim scope,
  len-trim scope,
  is_empty-trim id,
  len-trim id,
  is_empty-trim (scope ++ (colon ∷ id)),
  len-trim (scope ++ (colon ∷ id)),
  all_space-joined scope id,
  first_space-append scope (colon ∷ id),
  last_space-joined scope id,
  len-joined scope id,
)

-- Without a colon in the scopes, the joined text determines both parts.
joined-injective :
    (s t i j : Str)
    → contains s colon ≡ false
    → contains t colon ≡ false
    → s ++ (colon ∷ i) ≡ t ++ (colon ∷ j)
    → (s ≡ t) × (i ≡ j)
joined-injective [] [] i j h k e = ground arith
joined-injective [] (d ∷ t) i j h k e = ground arith
joined-injective (c ∷ s) [] i j h k e = ground arith
joined-injective (c ∷ s) (d ∷ t) i j h k e = ground (arith, joined-injective s t i j)

-- Two calls of `scoped` that give the same id were given the same scope and the same id.
pub scoped-injective :
    (s t i j : Str) (m : MessageId) → scoped s i ≡ ok m → scoped t j ≡ ok m → (s ≡ t) × (i ≡ j)
scoped-injective s t i j m h k =
    ground (arith, scoped_lem s i, scoped_lem t j, joined-injective s t i j)
