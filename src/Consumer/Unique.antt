-- ===== src/Consumer/Unique.antt =====
-- The ids that a batch sends to the backend: sorted by bytes, without repeats, and none missing.
use txbox.Common.{
  false, ◌≡◌, ◌⊎◌, inl, inr, refl, ◌∙◌, sym, ap, subst, List, [], ◌∷◌, ◌||◌, Ordering, arith, All,
  contains, ◌==◌, Bool-cases, place, insert_by, sort_unstable_by, dedup_after, dedup,
}
use txbox.Consumer.{unique_ids}
use txbox.Store.Contract.{IsAscending}
use txbox.Str.{cmp, str_eq}
use txbox.Str.Order.{cmp-eq, cmp-gt, cmp_trans}
use txbox.Types.{MessageId, message_id_eq, message_id_beq_iff}

abbrev by_bytes : MessageId → MessageId → Ordering
by_bytes a b = cmp a.as_str b.as_str

abbrev Below : MessageId → MessageId → Type 0
Below a b = by_bytes a b ≡ Ordering.lt

abbrev AtMost : MessageId → MessageId → Type 0
AtMost a b = Below a b ⊎ (a ≡ b)

abbrev IsSorted : List MessageId → Type 0
IsSorted [] = Unit
IsSorted (m ∷ ms) = All (AtMost m) ms × IsSorted ms

id_eq : (a b : MessageId) → a.as_str ≡ b.as_str → a ≡ b
id_eq a b e i = record { as_str = e i }

AtMost-of_cmp : (a b : MessageId) (o : Ordering) → by_bytes a b ≡ o → o ≡ Ordering.gt ⊎ AtMost a b
AtMost-of_cmp a b Ordering.lt e = inr (inl e)
AtMost-of_cmp a b Ordering.eq e = inr (inr (id_eq a b (cmp-eq a.as_str b.as_str e)))
AtMost-of_cmp a b Ordering.gt e = inl refl

Below-trans_AtMost : (a b c : MessageId) → Below a b → AtMost b c → Below a c
Below-trans_AtMost a b c h (inl k) = cmp_trans a.as_str b.as_str c.as_str h k
Below-trans_AtMost a b c h (inr e) = subst (Below a) e h

AtMost-trans : (a b c : MessageId) → AtMost a b → AtMost b c → AtMost a c
AtMost-trans a b c (inl h) k = inl (Below-trans_AtMost a b c h k)
AtMost-trans a b c (inr e) k = subst (λ x. AtMost x c) (sym e) k

module _ {A : Type 0} {P Q : A → Type 0} where
  pub All-mono : (xs : List A) → ((x : A) → P x → Q x) → All P xs → All Q xs
  All-mono [] f h = tt
  All-mono (x ∷ xs) f h = (f x h.0, All-mono xs f h.1)

All-place :
    (P : MessageId → Type 0) (o : Ordering) (x y : MessageId) (ys rest : List MessageId)
    → P x
    → All P (y ∷ ys)
    → All P rest
    → All P (place o x y ys rest)
All-place P Ordering.lt x y ys rest p h k = (p, h)
All-place P Ordering.eq x y ys rest p h k = (p, h)
All-place P Ordering.gt x y ys rest p h k = (h.0, k)

All-insert_by :
    (P : MessageId → Type 0) (x : MessageId) (ys : List MessageId)
    → P x
    → All P ys
    → All P (insert_by by_bytes x ys)
unfolding insert_by
All-insert_by P x [] p h = (p, tt)
All-insert_by P x (y ∷ ys) p h =
    All-place P (by_bytes x y) x y ys (insert_by by_bytes x ys) p h (All-insert_by P x ys p h.1)

place-IsSorted :
    (o : Ordering) (x y : MessageId) (ys rest : List MessageId)
    → by_bytes x y ≡ o
    → IsSorted (y ∷ ys)
    → (o ≡ Ordering.gt → All (AtMost y) rest)
    → IsSorted rest
    → IsSorted (place o x y ys rest)
place-IsSorted Ordering.lt x y ys rest e h k l =
    ((inl e, All-mono ys (λ z. AtMost-trans x y z (inl e)) h.0), h)
place-IsSorted Ordering.eq x y ys rest e h k l =
    let same : x ≡ y = id_eq x y (cmp-eq x.as_str y.as_str e) in
    ((inr same, All-mono ys (λ z. AtMost-trans x y z (inr same)) h.0), h)
place-IsSorted Ordering.gt x y ys rest e h k l = (k refl, l)

insert_by-AtMost :
    (x y : MessageId) (ys : List MessageId)
    → by_bytes x y ≡ Ordering.gt
    → All (AtMost y) ys
    → All (AtMost y) (insert_by by_bytes x ys)
insert_by-AtMost x y ys e h = All-insert_by (AtMost y) x ys (inl (cmp-gt x.as_str y.as_str e)) h

insert_by-IsSorted :
    (x : MessageId) (ys : List MessageId) → IsSorted ys → IsSorted (insert_by by_bytes x ys)
unfolding insert_by
insert_by-IsSorted x [] h = (tt, tt)
insert_by-IsSorted x (y ∷ ys) h =
    place-IsSorted (by_bytes x y) x y ys (insert_by by_bytes x ys) refl h
      (λ e. insert_by-AtMost x y ys e h.0) (insert_by-IsSorted x ys h.1)

sort-IsSorted : (ids : List MessageId) → IsSorted (sort_unstable_by by_bytes ids)
unfolding sort_unstable_by
sort-IsSorted [] = tt
sort-IsSorted (x ∷ xs) = insert_by-IsSorted x (sort_unstable_by by_bytes xs) (sort-IsSorted xs)

All-dedup_after :
    (P : MessageId → Type 0) (x : MessageId) (ys : List MessageId)
    → All P ys
    → All P (dedup_after x ys)
unfolding dedup_after
All-dedup_after P x [] h = tt
All-dedup_after P x (y ∷ ys) h = elim (Bool-cases (y == x)) [
  | inl same ↦ rw same (All-dedup_after P x ys h.1)
  | inr new ↦ rw new (h.0, All-dedup_after P y ys h.1)
]

Below-of_ne : (x y : MessageId) → AtMost x y → (y == x) ≡ false → Below x y
Below-of_ne x y (inl h) n = h
Below-of_ne x y (inr e) n = ground (arith, message_id_beq_iff y x)

-- In a sorted list the elements kept after `x` are all above `x`.
dedup_after-Below :
    (x : MessageId) (ys : List MessageId)
    → All (AtMost x) ys
    → IsSorted ys
    → All (Below x) (dedup_after x ys) × IsAscending (dedup_after x ys)
unfolding dedup_after
dedup_after-Below x [] h s = (tt, tt)
dedup_after-Below x (y ∷ ys) h s = elim (Bool-cases (y == x)) [
  | inl same ↦ rw same (dedup_after-Below x ys h.1 s.1)
  | inr new ↦
      let below = Below-of_ne x y h.0 new in
      let rest = dedup_after-Below y ys s.0 s.1 in
      rw new (
        (
          below,
          All-mono (dedup_after y ys) (λ z k. cmp_trans x.as_str y.as_str z.as_str below k) rest.0,
        ),
        rest,
      )
]

contains-insert_by :
    (x a : MessageId) (ys : List MessageId)
    → contains (insert_by by_bytes x ys) a ≡ ((a == x) || contains ys a)
unfolding insert_by
contains-insert_by x a [] = refl
contains-insert_by x a (y ∷ ys) = ground (arith, contains-insert_by x a ys)

contains-sort :
    (a : MessageId) (ids : List MessageId)
    → contains (sort_unstable_by by_bytes ids) a ≡ contains ids a
unfolding sort_unstable_by
contains-sort a [] = refl
contains-sort a (x ∷ xs) =
    contains-insert_by x a (sort_unstable_by by_bytes xs)
    ∙ ap (λ b. (a == x) || b) (contains-sort a xs)

contains-dedup_after :
    (x a : MessageId) (ys : List MessageId)
    → ((a == x) || contains (dedup_after x ys) a) ≡ ((a == x) || contains ys a)
unfolding dedup_after
contains-dedup_after x a [] = refl
contains-dedup_after x a (y ∷ ys) = ground (
  arith,
  contains-dedup_after x a ys,
  contains-dedup_after y a ys,
  message_id_beq_iff y x,
  message_id_beq_iff a x,
  message_id_beq_iff a y,
)

dedup-IsAscending : (ids : List MessageId) → IsSorted ids → IsAscending (dedup ids)
unfolding dedup
dedup-IsAscending [] h = tt
dedup-IsAscending (x ∷ xs) h = dedup_after-Below x xs h.0 h.1

contains-dedup : (a : MessageId) (ids : List MessageId) → contains (dedup ids) a ≡ contains ids a
unfolding dedup
contains-dedup a [] = refl
contains-dedup a (x ∷ xs) = contains-dedup_after x a xs

-- What the backend gets is sorted by bytes and without repeats.
pub unique_ids-IsAscending : (ids : List MessageId) → IsAscending (unique_ids ids)
unfolding unique_ids
unique_ids-IsAscending ids = dedup-IsAscending (sort_unstable_by by_bytes ids) (sort-IsSorted ids)

-- The batch that a backend gets has an id exactly if the batch that the caller gave has it.
pub contains-unique_ids :
    (a : MessageId) (ids : List MessageId) → contains (unique_ids ids) a ≡ contains ids a
unfolding unique_ids
contains-unique_ids a ids = contains-dedup a (sort_unstable_by by_bytes ids) ∙ contains-sort a ids

-- The batch that a backend gets is sorted by bytes and without repeats, and has an id exactly if the
-- batch that the caller gave has it.
pub unique_ids_lem :
    (ids : List MessageId)
    → IsAscending (unique_ids ids)
      × ((a : MessageId) → contains (unique_ids ids) a ≡ contains ids a)
unique_ids_lem ids = (unique_ids-IsAscending ids, λ a. contains-unique_ids a ids)
