-- ===== src/Str/Trim.antt =====
-- What `trim` removes, told from the first and the last character of a text.
use mathlib.Core.List.{append_assoc, reverse-cons, reverse-reverse}
use txbox.Common.{
  ℕ, ◌+◌, ◌≤◌, ◌<◌, ◌≡◌, inl, inr, refl, sym, ◌∙◌, ap, Bool, true, false, ◌&&◌, ◌||◌, [], ◌∷◌, ◌++◌,
  reverse, arith, if◌then◌else◌, nat_eq, ◌==◌, length, length-append, Bool-cases,
}
use txbox.Str.{Str, utf8, bytes, len, is_whitespace, trim_start, trim, is_empty}

-- The text is whitespace throughout; so is the empty text.
abbrev pub all_space : Str → Bool
all_space [] = true
all_space (c ∷ s) = is_whitespace c && all_space s

abbrev pub first_space : Str → Bool
first_space [] = false
first_space (c ∷ s) = is_whitespace c

abbrev pub last_space : Str → Bool
last_space [] = false
last_space (c ∷ []) = is_whitespace c
last_space (c ∷ d ∷ s) = last_space (d ∷ s)

pub utf8_pos : (c : ℕ) → 0 < length (utf8 c)
unfolding utf8
utf8_pos c = ground arith

-- An ASCII character is one byte.
pub length-utf8 : (c : ℕ) → c < 128 → length (utf8 c) ≡ 1
unfolding utf8
length-utf8 c h = ground arith

bytes-append : (s t : Str) → bytes (s ++ t) ≡ bytes s ++ bytes t
unfolding bytes
bytes-append [] t = refl
bytes-append (c ∷ s) t = rw (bytes-append s t) (sym (append_assoc (utf8 c) (bytes s) (bytes t)))

pub len-append : (s t : Str) → len (s ++ t) ≡ len s + len t
unfolding len
len-append s t = rw bytes-append (length-append (bytes s) (bytes t))

pub len-cons : (c : ℕ) (s : Str) → len (c ∷ s) ≡ length (utf8 c) + len s
unfolding len
len-cons c s = length-append (utf8 c) (bytes s)

len-nil : len [] ≡ 0
unfolding len
len-nil = refl

pub len-reverse : (s : Str) → len (reverse s) ≡ len s
len-reverse [] = refl
len-reverse (c ∷ s) =
    rw (reverse-cons, len-append)
      (omega (arith, len-reverse s, len-cons c [], len-cons c s, len-nil))

len-trim_start-le : (s : Str) → len (trim_start s) ≤ len s
unfolding trim_start
len-trim_start-le [] = omega arith
len-trim_start-le (c ∷ s) = ground (arith, len-trim_start-le s, len-cons c s)

len-trim_start-lt : (s : Str) → first_space s ≡ true → len (trim_start s) < len s
unfolding trim_start
len-trim_start-lt [] h = cc
len-trim_start-lt (c ∷ s) h = rw h (omega (arith, len-trim_start-le s, len-cons c s, utf8_pos c))

trim_start-eq : (s : Str) → first_space s ≡ false → trim_start s ≡ s
unfolding trim_start
trim_start-eq [] h = refl
trim_start-eq (c ∷ s) h = rw h

is_empty-trim_start : (s : Str) → is_empty (trim_start s) ≡ all_space s
unfolding trim_start
is_empty-trim_start [] = refl
is_empty-trim_start (c ∷ s) = ground (arith, is_empty-trim_start s)

all_space-trim_start : (s : Str) → all_space (trim_start s) ≡ all_space s
unfolding trim_start
all_space-trim_start [] = refl
all_space-trim_start (c ∷ s) = ground (arith, all_space-trim_start s)

pub all_space-append : (s t : Str) → all_space (s ++ t) ≡ (all_space s && all_space t)
all_space-append [] t = refl
all_space-append (c ∷ s) t = ground (arith, all_space-append s t)

all_space-reverse : (s : Str) → all_space (reverse s) ≡ all_space s
all_space-reverse [] = refl
all_space-reverse (c ∷ s) =
    rw (reverse-cons, all_space-append) (ground (arith, all_space-reverse s))

is_empty-append : (s t : Str) → is_empty (s ++ t) ≡ (is_empty s && is_empty t)
is_empty-append [] t = refl
is_empty-append (c ∷ s) t = refl

is_empty-reverse : (s : Str) → is_empty (reverse s) ≡ is_empty s
is_empty-reverse [] = refl
is_empty-reverse (c ∷ s) = rw (reverse-cons, is_empty-append) (ground arith)

last_space-snoc : (s : Str) (c : ℕ) → last_space (s ++ c ∷ []) ≡ is_whitespace c
last_space-snoc [] c = refl
last_space-snoc (d ∷ []) c = refl
last_space-snoc (d ∷ e ∷ s) c = last_space-snoc (e ∷ s) c

last_space-reverse : (s : Str) → last_space (reverse s) ≡ first_space s
last_space-reverse [] = refl
last_space-reverse (c ∷ s) = rw reverse-cons (last_space-snoc (reverse s) c)

first_space-reverse : (s : Str) → first_space (reverse s) ≡ last_space s
first_space-reverse s = sym (last_space-reverse (reverse s)) ∙ ap last_space (reverse-reverse s)

-- `trim` leaves nothing exactly of a text of whitespace.
pub is_empty-trim : (s : Str) → is_empty (trim s) ≡ all_space s
unfolding trim
is_empty-trim s =
    is_empty-reverse (trim_start (reverse (trim_start s)))
    ∙ is_empty-trim_start (reverse (trim_start s))
    ∙ all_space-reverse (trim_start s)
    ∙ all_space-trim_start s

-- What `trim_end` does to the length, read from the other end.
trim_reversed :
    (s : Str) → (len (trim_start (reverse s)) == len s) ≡ (if last_space s then false else true)
trim_reversed s = elim (Bool-cases (last_space s)) [
  | inl last ↦
      rw last (
        ground (arith, len-trim_start-lt (reverse s) (first_space-reverse s ∙ last), len-reverse s))
  | inr clean ↦
      rw (clean, trim_start-eq (reverse s) (first_space-reverse s ∙ clean), len-reverse)
        (ground arith)
]

-- `trim` keeps the length exactly when the text neither begins nor ends with whitespace.
pub len-trim :
    (s : Str) → (len (trim s) == len s) ≡ (if first_space s || last_space s then false else true)
unfolding trim
len-trim s = rw len-reverse (elim (Bool-cases (first_space s)) [
  | inl first ↦ rw first (
      ground (
        arith,
        len-trim_start-lt s first,
        len-trim_start-le (reverse (trim_start s)),
        len-reverse (trim_start s),
      ))
  | inr clean ↦ rw (clean, trim_start-eq s clean) (trim_reversed s)
])

pub first_space-append : (s t : Str) → all_space s ≡ false → first_space (s ++ t) ≡ first_space s
first_space-append [] t h = cc
first_space-append (c ∷ s) t h = refl

pub last_space-append : (s t : Str) → all_space t ≡ false → last_space (s ++ t) ≡ last_space t
last_space-append [] t h = refl
last_space-append (c ∷ []) [] h = cc
last_space-append (c ∷ []) (d ∷ t) h = refl
last_space-append (c ∷ d ∷ s) t h = last_space-append (d ∷ s) t h
