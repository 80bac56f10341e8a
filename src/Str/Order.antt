-- ===== src/Str/Order.antt =====
-- The byte order of texts is a total order, and texts of equal bytes are equal.
use txbox.Common.{ℕ, ◌≡◌, refl, List, [], ◌∷◌, ◌++◌, arith, Ordering}
use txbox.Str.{Str, utf8, bytes, cmp_bytes, cmp}

cmp_bytes_self : (xs : List ℕ) → cmp_bytes xs xs ≡ Ordering.eq
unfolding cmp_bytes
cmp_bytes_self [] = refl
cmp_bytes_self (x ∷ xs) = ground (arith, cmp_bytes_self xs)

cmp_bytes-eq : (xs ys : List ℕ) → cmp_bytes xs ys ≡ Ordering.eq → xs ≡ ys
unfolding cmp_bytes
cmp_bytes-eq [] [] h = refl
cmp_bytes-eq [] (y ∷ ys) h = cc
cmp_bytes-eq (x ∷ xs) [] h = cc
cmp_bytes-eq (x ∷ xs) (y ∷ ys) h = ground (arith, cmp_bytes-eq xs ys)

cmp_bytes-gt : (xs ys : List ℕ) → cmp_bytes xs ys ≡ Ordering.gt → cmp_bytes ys xs ≡ Ordering.lt
unfolding cmp_bytes
cmp_bytes-gt [] [] h = cc
cmp_bytes-gt [] (y ∷ ys) h = cc
cmp_bytes-gt (x ∷ xs) [] h = refl
cmp_bytes-gt (x ∷ xs) (y ∷ ys) h = ground (arith, cmp_bytes-gt xs ys)

cmp_bytes_trans :
    (xs ys zs : List ℕ)
    → cmp_bytes xs ys ≡ Ordering.lt
    → cmp_bytes ys zs ≡ Ordering.lt
    → cmp_bytes xs zs ≡ Ordering.lt
unfolding cmp_bytes
cmp_bytes_trans [] [] zs h k = k
cmp_bytes_trans [] (y ∷ ys) [] h k = cc
cmp_bytes_trans [] (y ∷ ys) (z ∷ zs) h k = refl
cmp_bytes_trans (x ∷ xs) [] zs h k = cc
cmp_bytes_trans (x ∷ xs) (y ∷ ys) [] h k = cc
cmp_bytes_trans (x ∷ xs) (y ∷ ys) (z ∷ zs) h k = ground (arith, cmp_bytes_trans xs ys zs)

-- A character can be read off the front of the bytes.
utf8_front : (c d : ℕ) (s t : List ℕ) → utf8 c ++ s ≡ utf8 d ++ t → (c ≡ d) × (s ≡ t)
unfolding utf8
utf8_front c d s t h = ground arith

bytes-injective : (s t : Str) → bytes s ≡ bytes t → s ≡ t
unfolding bytes utf8
bytes-injective [] [] h = refl
bytes-injective [] (d ∷ t) h = ground arith
bytes-injective (c ∷ s) [] h = ground arith
bytes-injective (c ∷ s) (d ∷ t) h =
    let (same, rest) = utf8_front c d (bytes s) (bytes t) h in cc (same, bytes-injective s t rest)

pub cmp_self : (s : Str) → cmp s s ≡ Ordering.eq
unfolding cmp
cmp_self s = cmp_bytes_self (bytes s)

-- Only equal texts compare as equal.
pub cmp-eq : (s t : Str) → cmp s t ≡ Ordering.eq → s ≡ t
unfolding cmp
cmp-eq s t h = bytes-injective s t (cmp_bytes-eq (bytes s) (bytes t) h)

pub cmp-gt : (s t : Str) → cmp s t ≡ Ordering.gt → cmp t s ≡ Ordering.lt
unfolding cmp
cmp-gt s t h = cmp_bytes-gt (bytes s) (bytes t) h

pub cmp_trans :
    (s t u : Str) → cmp s t ≡ Ordering.lt → cmp t u ≡ Ordering.lt → cmp s u ≡ Ordering.lt
unfolding cmp
cmp_trans s t u h k = cmp_bytes_trans (bytes s) (bytes t) (bytes u) h k
