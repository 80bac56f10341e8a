-- ===== src/Testing/Names.antt =====
-- The ids of a run: they are valid, and each check has consumers of its own.
use txbox.Common.{
  ℕ, zero, suc, ◌+◌, ◌≤◌, ◌<◌, ◌/◌, ◌%◌, false, ◌≡◌, refl, [], ◌∷◌, ◌++◌, arith, ◌==◌, nat_eq, ◌∙◌,
}
use txbox.Result.{ok}
use txbox.Str.{Str, str, len, bytes, utf8, is_whitespace, str_beq}
use txbox.Str.Trim.{
  all_space, last_space, last_space-append, len-append, len-cons, length-utf8, is_empty-trim,
  len-trim,
}
use txbox.Testing.{hex_digit, hex_digits, Run, run_new, prefix}
use txbox.Types.{
  consumer_id_try_from, message_id_try_from, ConsumerId, consumer_id_eq, consumer_max_len,
  message_max_len,
}
use txbox.Types.Ids.{IsClean}

pub consumer_id_try_from_lem :
    (v : Str)
    → IsClean v
    → len v ≤ consumer_max_len
    → consumer_id_try_from v ≡ ok (record { as_str = v })
unfolding consumer_id_try_from
consumer_id_try_from_lem v c h = ground (arith, is_empty-trim v, len-trim v)

pub message_id_try_from_lem :
    (v : Str)
    → IsClean v
    → len v ≤ message_max_len
    → message_id_try_from v ≡ ok (record { as_str = v })
unfolding message_id_try_from
message_id_try_from_lem v c h = ground (arith, is_empty-trim v, len-trim v)

hex_digit-lt : (n : ℕ) → n < 16 → hex_digit n < 128
unfolding hex_digit
hex_digit-lt n h = ground arith

len_cons_ascii : (c : ℕ) (s : Str) → c < 128 → len (c ∷ s) ≡ 1 + len s
len_cons_ascii c s h = omega (arith, len-cons c s, length-utf8 c h)

len-hex_digits : (k n : ℕ) (acc : Str) → len (hex_digits k n acc) ≡ k + len acc
unfolding hex_digits
len-hex_digits zero n acc = omega arith
len-hex_digits (suc k) n acc = omega (
  arith,
  len-hex_digits k (n / 16) (hex_digit (n % 16) ∷ acc),
  len_cons_ascii (hex_digit (n % 16)) acc (hex_digit-lt (n % 16) (omega arith)),
)

-- A run whose nonce has its sixteen digits.
pub record IsRun (run : Run) : Type 0 where
  pub nonce_len : len run.nonce ≡ 16

pub run_new-IsRun : (n : ℕ) → IsRun (run_new n)
unfolding run_new len
run_new-IsRun n = record { nonce_len = len-hex_digits 16 n [] }

len_head : len (str "conformance-") ≡ 12
unfolding len bytes utf8
len_head = refl

len_dash : len (str "-") ≡ 1
unfolding len bytes utf8
len_dash = refl

pub len-prefix : (run : Run) → IsRun run → len (prefix run) ≡ 29
len-prefix run r = omega (
  arith,
  len-append (str "conformance-") (run.nonce ++ str "-"),
  len-append run.nonce (str "-"),
  len_head,
  len_dash,
  r.nonce_len,
)

-- What stands after the prefix.
pub record IsCheck (check : Str) : Type 0 where
  pub not_blank : all_space check ≡ false
  pub ends_clean : last_space check ≡ false
  pub short : len check ≤ 226

prefix-IsClean : (run : Run) (check : Str) → IsCheck check → IsClean (prefix run ++ check)
unfolding is_whitespace
prefix-IsClean run check c = record {
  not_blank = refl;
  starts_clean = refl;
  ends_clean = last_space-append (prefix run) check c.not_blank ∙ c.ends_clean;
}

unfoldable pub scoped_consumer : Run → Str → ConsumerId
scoped_consumer run check = record { as_str = prefix run ++ check }

pub prefixed_lem :
    (run : Run) (check : Str)
    → IsRun run
    → IsCheck check
    → consumer_id_try_from (prefix run ++ check) ≡ ok (scoped_consumer run check)
unfolding scoped_consumer
prefixed_lem run check r c =
    consumer_id_try_from_lem (prefix run ++ check) (prefix-IsClean run check c)
      (omega (arith, len-append (prefix run) check, len-prefix run r, c.short))

str_beq-append : (p a b : Str) → str_beq (p ++ a) (p ++ b) ≡ str_beq a b
str_beq-append [] a b = refl
str_beq-append (c ∷ p) a b = ground (arith, str_beq-append p a b)

-- Two checks have one consumer only if they have one name.
pub scoped_consumer-beq :
    (run : Run) (a b : Str) → (scoped_consumer run a == scoped_consumer run b) ≡ str_beq a b
unfolding scoped_consumer
scoped_consumer-beq run a b = str_beq-append (prefix run) a b
