-- ===== src/Testing/Repeats.antt =====
-- The suite can run repeatedly: a run's nonce tells its hash, and runs share no consumer.
use txbox.Common.{
  ℕ, zero, suc, ◌+◌, ◌-◌, ◌*◌, ◌^◌, ◌/◌, ◌%◌, ◌<◌, ◌≡◌, ◌≢◌, inl, inr, refl, sym, ap, ◌∙◌, [], ◌∷◌,
  ◌++◌, length, take, ltb, if◌then◌else◌, arith, Bool-cases, ◌==◌,
}
use mathlib.Core.List.{append_assoc}
use txbox.Io.{◌>>◌}
use txbox.Io.Triple.{Gives, Triple-bind, Triple-mono, Triple-fix, Triple-fact}
use txbox.Store.{InboxStore}
use txbox.Store.Contract.{Contract, Db}
use txbox.Store.Reliable.{Reliable}
use txbox.Str.{Str, str}
use txbox.Testing.{hex_digit, hex_digits, run_new}
use txbox.Testing.Checks.{conformance}
use txbox.Testing.Names.{scoped_consumer}
use txbox.Testing.Probes.{Excused, Check}
use txbox.Testing.Processes.{IsNew}
use txbox.Testing.Suite.{IsForeign, conformance_triple}
use txbox.Types.{ConsumerId, MessageId, consumer_id_eq, consumer_id_beq_iff}

-- The number that hexadecimal digits write, after those that write `n`.
abbrev hex_value : ℕ → Str → ℕ
hex_value n [] = n
hex_value n (c ∷ s) = hex_value (n * 16 + (if ltb c 58 then c - 48 else c - 87)) s

digit_back :
    (n : ℕ)
    → n / 16 * 16
        + (if ltb (hex_digit (n % 16)) 58 then hex_digit (n % 16) - 48 else hex_digit (n % 16) - 87)
      ≡ n
unfolding hex_digit
digit_back n = ground arith

hex_value-hex_digits :
    (k n : ℕ) (acc : Str) → n < 16 ^ k → hex_value 0 (hex_digits k n acc) ≡ hex_value n acc
unfolding hex_digits
hex_value-hex_digits zero n acc h = ap (λ m. hex_value m acc) (omega arith)
hex_value-hex_digits (suc k) n acc h =
    hex_value-hex_digits k (n / 16) (hex_digit (n % 16) ∷ acc) (omega arith)
    ∙ ap (λ m. hex_value m acc) (digit_back n)

length-hex_digits : (k n : ℕ) (acc : Str) → length (hex_digits k n acc) ≡ k + length acc
unfolding hex_digits
length-hex_digits zero n acc = omega arith
length-hex_digits (suc k) n acc =
    omega (arith, length-hex_digits k (n / 16) (hex_digit (n % 16) ∷ acc))

take-append : (xs ys : Str) → take (length xs) (xs ++ ys) ≡ xs
take-append [] [] = refl
take-append [] (y ∷ ys) = refl
take-append (x ∷ xs) ys = ap (λ zs. x ∷ zs) (take-append xs ys)

-- The nonce of a run, read back as a hexadecimal number, is the hash that the run drew, if that has
-- at most 64 bits.
hex_value-run_new : (n : ℕ) → n < 2 ^ 64 → hex_value 0 (run_new n).nonce ≡ n
unfolding run_new
hex_value-run_new n h = hex_value-hex_digits 16 n [] h

length-nonce : (n : ℕ) → length (run_new n).nonce ≡ 16
unfolding run_new
length-nonce n = length-hex_digits 16 n []

-- What is left of a consumer's id without the text before the nonce.
abbrev tail_of : ℕ → Str → Str
tail_of zero s = s
tail_of (suc n) [] = []
tail_of (suc n) (c ∷ s) = tail_of n s

-- The nonce is read off a consumer's id.
nonce_of :
    (n : ℕ) (check : Str)
    → take 16 (tail_of 12 (scoped_consumer (run_new n) check).as_str) ≡ (run_new n).nonce
unfolding scoped_consumer
nonce_of n check =
    let nonce = (run_new n).nonce in
    ap (take 16) (append_assoc nonce (str "-") check)
    ∙ ap (λ j. take j (nonce ++ (str "-" ++ check))) (sym (length-nonce n))
    ∙ take-append nonce (str "-" ++ check)

-- Two runs with different hashes have no consumer in common.
pub run_new-apart :
    (n m : ℕ) (a b : Str)
    → n < 2 ^ 64
    → m < 2 ^ 64
    → scoped_consumer (run_new n) a ≡ scoped_consumer (run_new m) b
    → n ≡ m
run_new-apart n m a b hn hm e =
    sym (hex_value-run_new n hn)
    ∙ ap (hex_value 0) (
        sym (nonce_of n a)
        ∙ ap (λ (c : ConsumerId). take 16 (tail_of 12 c.as_str)) e
        ∙ nonce_of m b)
    ∙ hex_value-run_new m hm

run_new-IsForeign :
    (n m : ℕ)
    → n < 2 ^ 64
    → m < 2 ^ 64
    → n ≢ m
    → (check : Str) → IsForeign (run_new n) (scoped_consumer (run_new m) check)
run_new-IsForeign n m hn hm other check a =
    elim (Bool-cases (scoped_consumer (run_new m) check == scoped_consumer (run_new n) a)) [
      | inr differ ↦ differ
      | inl same ↦ absurd (
          other (
            sym (
              run_new-apart m n check a hm hn (
                (consumer_id_beq_iff (scoped_consumer (run_new m) check)
                    (scoped_consumer (run_new n) a)).0
                  same))))
    ]

module _ {W E App : Type 0} (s : InboxStore W E) (k : Contract s App) (Faulty : Type 0)
    (f : Reliable s Faulty) where
  -- Over a backend that keeps its contract, two runs of the suite one after the other, with different
  -- hashes of 64 bits and contents without rows for the consumers of either, both return, and leave
  -- the rows of every other consumer as they were; or they end as a single run may over a backend
  -- with a call that failed or stopped.
  pub conformance-conformance :
      (n m : ℕ) (d : Db App)
      → n < 2 ^ 64
      → m < 2 ^ 64
      → n ≢ m
      → ((check : Str) → IsNew (scoped_consumer (run_new n) check) d)
      → ((check : Str) → IsNew (scoped_consumer (run_new m) check) d)
      → (w : W) → k.committed w ≡ d
      → Gives w
          (conformance s n >> conformance s m)
          (λ _ w'.
            (j : ConsumerId) (i : MessageId)
            → IsForeign (run_new n) j
            → IsForeign (run_new m) j
            → (k.committed w').row j i ≡ d.row j i)
          (λ x _. Excused Faulty x)
  conformance-conformance n m d hn hm other new_n new_m w at =
      let first : Check Faulty (λ w. k.committed w ≡ d) (conformance s n) _ = record {
        at = conformance_triple s k Faulty f n d new_n;
      } in
      (Triple-bind first (λ _. Triple-fix k.committed (λ e.
          Triple-fact
            {F = (j : ConsumerId) (i : MessageId) → IsForeign (run_new n) j → e.row j i ≡ d.row j i}
            (λ w h j i o. ap (λ (x : Db App). x.row j i) (sym h.1) ∙ h.0 j i o)
            (λ spared.
              Triple-mono
                (record {
                  at = conformance_triple s k Faulty f m e (λ check i.
                      spared (scoped_consumer (run_new m) check) i
                        (run_new-IsForeign n m hn hm other check)
                      ∙ new_m check i);
                })
                (λ w h. h.1) (λ _ w h j i o o'. h j i o' ∙ spared j i o) (λ x w h. h))))).at
        w at
