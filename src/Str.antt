-- ===== src/Str.antt =====
-- Rust's `str`, as src/types.rs and src/consumer.rs use it: a list of characters (their code
-- points), its UTF-8 bytes, `len`, `trim`, `contains` and `cmp`.
pub mod Trim
pub mod Order
use Prim.Native.Char.{code}
use Prim.Native.String.{String}
use txbox.Common.{
  ℕ, zero, suc, ◌+◌, ◌/◌, ◌%◌, ◌≡◌, ◌↔◌, Bool, true, false, ◌&&◌, ◌||◌, List, [], ◌∷◌, ◌++◌, map,
  reverse, compare, Ordering, arith, ltb, leb, if◌then◌else◌, PartialEq, ◌==◌, nat_beq, nat_beq_iff,
  nat_eq, length,
}

abbrev pub Str : Type 0
Str = List ℕ

-- A literal of the source.
abbrev pub str : String → Str
str String.[] = []
str (String.◌∷◌ c s) = code c ∷ str s

-- `str` equality, character by character.
abbrev pub str_beq : Str → Str → Bool
str_beq [] [] = true
str_beq [] (d ∷ t) = false
str_beq (c ∷ s) [] = false
str_beq (c ∷ s) (d ∷ t) = nat_beq c d && str_beq s t

pub str_beq_iff : (s t : Str) → (str_beq s t ≡ true) ↔ (s ≡ t)
str_beq_iff [] [] = ground arith
str_beq_iff [] (d ∷ t) = ground arith
str_beq_iff (c ∷ s) [] = ground arith
str_beq_iff (c ∷ s) (d ∷ t) = ground (arith, str_beq_iff s t)

instance abbrev pub str_eq : PartialEq Str
str_eq = record { eq = str_beq; eq_reflects = str_beq_iff }

-- The UTF-8 bytes of a character.
unfoldable pub utf8 : ℕ → List ℕ
utf8 c =
    if ltb c 0x80
    then c ∷ []
    else if ltb c 0x800
    then (0xc0 + c / 64) ∷ (0x80 + c % 64) ∷ []
    else if ltb c 0x10000
    then (0xe0 + c / 4096) ∷ (0x80 + c / 64 % 64) ∷ (0x80 + c % 64) ∷ []
    else (0xf0 + c / 262144) ∷ (0x80 + c / 4096 % 64) ∷ (0x80 + c / 64 % 64) ∷ (0x80 + c % 64) ∷ []

unfoldable pub bytes : Str → List ℕ
unfolding utf8
bytes [] = []
bytes (c ∷ s) = utf8 c ++ bytes s

-- `str::len` counts bytes.
unfoldable pub len : Str → ℕ
unfolding bytes
len s = length (bytes s)

-- `char::is_whitespace`: Unicode's White_Space.
unfoldable pub is_whitespace : ℕ → Bool
is_whitespace c =
    (leb 9 c && leb c 13)
    || c == 32
    || c == 0x85
    || c == 0xa0
    || c == 0x1680
    || (leb 0x2000 c && leb c 0x200a)
    || c == 0x2028
    || c == 0x2029
    || c == 0x202f
    || c == 0x205f
    || c == 0x3000

pub trim_start : Str → Str
trim_start [] = []
trim_start (c ∷ s) = let rest = trim_start s in if is_whitespace c then rest else c ∷ s

pub trim_end : Str → Str
trim_end s = reverse (trim_start (reverse s))

unfoldable pub trim : Str → Str
unfolding trim_start trim_end is_whitespace
trim s = trim_end (trim_start s)

abbrev pub is_empty : Str → Bool
is_empty [] = true
is_empty (c ∷ s) = false

-- `Display` of an unsigned integer: decimal digits, before those in `acc`. Each round drops one
-- digit.
unfoldable pub digits : ℕ → ℕ → Str → Str
digits zero n acc = acc
digits (suc fuel) n acc =
    let shown = (48 + n % 10) ∷ acc in
    let rest = digits fuel (n / 10) shown in if ltb n 10 then shown else rest

unfoldable pub decimal : ℕ → Str
unfolding digits
decimal n = digits (suc n) n []

-- `slice::cmp` on bytes: the order of the first difference, a prefix first.
pub cmp_bytes : List ℕ → List ℕ → Ordering
cmp_bytes [] [] = Ordering.eq
cmp_bytes [] (y ∷ ys) = Ordering.lt
cmp_bytes (x ∷ xs) [] = Ordering.gt
cmp_bytes (x ∷ xs) (y ∷ ys) =
    let rest = cmp_bytes xs ys in
    elim (compare x y) [
      | Ordering.lt ↦ Ordering.lt
      | Ordering.eq ↦ rest
      | Ordering.gt ↦ Ordering.gt
    ]

-- `str` orders by bytes.
unfoldable pub cmp : Str → Str → Ordering
unfolding bytes cmp_bytes
cmp s t = cmp_bytes (bytes s) (bytes t)
