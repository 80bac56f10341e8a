-- ===== src/Consumer/Answers.antt =====
-- The answers of a batch, read off the backend's claims: the `expect` never panics, and each id is
-- answered as if it were claimed by itself.
use txbox.Common.{
  true, ◌≡◌, ◌≢◌, refl, ap, ◌∙◌, fun_ext, Option, none, some, List, [], ◌∷◌, map, zip, arith, All,
  contains, length, lookup, put, lookup-put, ◌==◌, if◌then◌else◌, Bool-cases, inl, inr, nat_eq,
  nat_beq_iff, length-map, beq_self,
}
use txbox.Consumer.{answer_ids, collect, unique_ids, expect, answers_from}
use txbox.Consumer.Unique.{All-mono, contains-unique_ids}
use txbox.Io.{stop, pure}
use txbox.Store.Contract.{Db, answer, add, claim_each}
use txbox.Str.{Str, str_eq}
use txbox.Types.{
  Claim, ConsumerId, MessageId, message_id_eq, message_id_beq_iff, consumer_id_eq,
  consumer_id_beq_iff,
}

-- Each id's own answer the first time, `Duplicate` from then on.
abbrev pub first_answers : (MessageId → Claim) → List MessageId → List Claim
first_answers g [] = []
first_answers g (m ∷ ms) = g m ∷ first_answers (λ j. if j == m then Claim.duplicate else g j) ms

-- The map answers `g` on the ids of `keys`, and has no other.
abbrev Holds : (MessageId → Claim) → List MessageId → List (Str × Claim) → Type 0
Holds g keys m =
    (j : MessageId) → lookup j.as_str m ≡ (if contains keys j then some (g j) else none)

keys_of : List MessageId → List Str
keys_of = map (λ (m : MessageId). m.as_str)

lookup-collect :
    (g : MessageId → Claim) (keys : List MessageId) (m : List (Str × Claim)) (j : MessageId)
    → lookup j.as_str (collect m (zip (map (λ (i : MessageId). i.as_str) keys) (map g keys)))
      ≡ (if contains keys j then some (g j) else lookup j.as_str m)
unfolding collect zip
lookup-collect g [] m j = refl
lookup-collect g (k ∷ keys) m j = ground (
  arith,
  lookup-collect g keys (put k.as_str (g k) m) j,
  lookup-put k.as_str j.as_str (g k) m,
  message_id_beq_iff j k,
)

answer_ids_lem :
    (g : MessageId → Claim) (keys ids : List MessageId) (m : List (Str × Claim))
    → Holds g keys m
    → All (λ j. contains keys j ≡ true) ids
    → answer_ids ids m ≡ some (first_answers g ids)
unfolding answer_ids
answer_ids_lem g keys [] m h k = refl
answer_ids_lem g keys (i ∷ ids) m h k =
    let found : lookup i.as_str m ≡ some (g i) = ground (arith, h i, k.0) in
    let left = λ (j : MessageId). if j == i then Claim.duplicate else g j in
    let rest =
      answer_ids_lem left keys ids (put i.as_str Claim.duplicate m)
        (λ j.
          ground (
            arith,
            h j,
            lookup-put i.as_str j.as_str Claim.duplicate m,
            message_id_beq_iff j i,
            k.0,
          ))
        k.1 in
    ground (arith, found, rest)

-- On contents `v`, the answers to a batch are those of claims made one after the other.
first_answers-eq_claim_each :
    {App : Type 0} (c : ConsumerId) (ids : List MessageId) (v : Db App)
    → first_answers (answer c v) ids ≡ claim_each c ids v
first_answers-eq_claim_each c [] v = refl
first_answers-eq_claim_each c (m ∷ ms) v =
    ap (λ ks. answer c v m ∷ ks)
      (ap (λ g. first_answers g ms) (fun_ext (λ j. ground (arith, consumer_id_beq_iff c c)))
        ∙ first_answers-eq_claim_each c ms (add c m v))

pub All-of_contains :
    {P : MessageId → Type 0} (ids : List MessageId)
    → ((j : MessageId) → contains ids j ≡ true → P j)
    → All P ids
All-of_contains [] f = tt
All-of_contains (i ∷ ids) f =
    (f i (ground (arith, message_id_beq_iff i i)), All-of_contains ids (λ j h. f j (ground arith)))

-- Every id of a batch is among those that the backend gets.
All-unique_ids : (ids : List MessageId) → All (λ j. contains (unique_ids ids) j ≡ true) ids
All-unique_ids ids = All-of_contains ids (λ j h. contains-unique_ids j ids ∙ h)

module _ {W E : Type 0} where
  -- Whatever contents the backend answered from, its claims for the unique ids become the answers
  -- of claims made one after the other.
  pub answers_from_lem :
      {App : Type 0} (c : ConsumerId) (ids : List MessageId) (v : Db App)
      → answers_from {W = W} {E = E} ids (unique_ids ids) (map (answer c v) (unique_ids ids))
        ≡ pure (claim_each c ids v)
  unfolding answers_from
  answers_from_lem c ids v =
      let keys = unique_ids ids in
      let answers =
        answer_ids_lem (answer c v) keys ids
          (collect [] (zip (map (λ (m : MessageId). m.as_str) keys) (map (answer c v) keys)))
          (lookup-collect (answer c v) keys []) (All-unique_ids ids)
        ∙ ap some (first_answers-eq_claim_each c ids v) in
      rw (length-map keys (answer c v), beq_self (length keys), answers)

lookup-put-ne_none :
    (k j : Str) (v : Claim) (m : List (Str × Claim))
    → lookup j m ≢ none
    → lookup j (put k v m) ≢ none
lookup-put-ne_none k j v m h = ground (arith, lookup-put k j v m)

answer_ids-ne_none :
    (ids : List MessageId) (m : List (Str × Claim))
    → All (λ j. lookup j.as_str m ≢ none) ids
    → answer_ids ids m ≢ none
unfolding answer_ids
answer_ids-ne_none [] m h = ground arith
answer_ids-ne_none (i ∷ ids) m h = ground (
  arith,
  h.0,
  answer_ids-ne_none ids (put i.as_str Claim.duplicate m)
      (All-mono ids (λ j k. lookup-put-ne_none i.as_str j.as_str Claim.duplicate m k) h.1),
)

collect-ne_none_of_old :
    (j : Str) (entries m : List (Str × Claim))
    → lookup j m ≢ none
    → lookup j (collect m entries) ≢ none
unfolding collect
collect-ne_none_of_old j [] m h = h
collect-ne_none_of_old j ((k, v) ∷ entries) m h =
    collect-ne_none_of_old j entries (put k v m) (lookup-put-ne_none k j v m h)

collect-ne_none :
    (j : MessageId) (keys : List MessageId) (claims : List Claim) (m : List (Str × Claim))
    → length claims ≡ length keys
    → contains keys j ≡ true
    → lookup j.as_str (collect m (zip (map (λ (i : MessageId). i.as_str) keys) claims)) ≢ none
unfolding collect zip
collect-ne_none j [] claims m e h = cc
collect-ne_none j (k ∷ keys) [] m e h = absurd (omega arith)
collect-ne_none j (k ∷ keys) (v ∷ claims) m e h = elim (Bool-cases (j == k)) [
  | inl same ↦
      collect-ne_none_of_old j.as_str (zip (map (λ (i : MessageId). i.as_str) keys) claims)
        (put k.as_str v m) (ground (arith, lookup-put k.as_str j.as_str v m))
  | inr other ↦ collect-ne_none j keys claims (put k.as_str v m) (omega arith) (ground arith)
]

module _ {W E : Type 0} where
  expect-ne_stop :
      {A : Type 0} (o : Option A) (w : W) → o ≢ none → (expect {W = W} {E = E} o w).0 ≢ stop
  expect-ne_stop none w h = absurd (h refl)
  expect-ne_stop (some a) w h = λ e. cc

  -- Whatever a backend claims, the `expect` on the map of answers does not panic.
  pub answers_from-ne_stop :
      (ids : List MessageId) (claims : List Claim) (w : W)
      → (answers_from {W = W} {E = E} ids (unique_ids ids) claims w).0 ≢ stop
  unfolding answers_from
  answers_from-ne_stop ids claims w =
      let keys = unique_ids ids in
      elim (Bool-cases (length claims == length keys)) [
        | inl same ↦ rw same (
            expect-ne_stop _ w (
              answer_ids-ne_none ids _ (
                All-of_contains ids (λ j h.
                  collect-ne_none j keys claims []
                    ((nat_beq_iff (length claims) (length keys)).0 same)
                    (contains-unique_ids j ids ∙ h)))))
        | inr short ↦ rw short (λ e. cc)
      ]
