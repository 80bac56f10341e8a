-- ===== src/Consumer/Taken.antt =====
-- The rows that `Consumer::claim_many` takes, one after the other: what it has a backend claim that
-- keeps the default loop of src/store.rs, over a store that writes down each claim.
use mathlib.Core.List.{append_assoc, append-nil}
use txbox.Common.{
  ◌≡◌, refl, ap, ◌∙◌, sym, Option, none, some, false, Bool-cases, inl, inr, List, [], dedup,
  sort_unstable_by, ◌∷◌, ◌++◌, length, map, ◌==◌, nat_eq,
}
use txbox.Consumer.{consumer, claim_many, unique_ids, answers_from, answer_ids, expect}
use txbox.Error.{InboxError}
use txbox.Io.{Io, ret, continue, pure}
use txbox.Store.{InboxStore, claim_in_order, default_claim_many}
use txbox.Types.{Claim, ClaimBatch, ClaimRequest, claim_batch, claim_request, ConsumerId, MessageId}

abbrev Recorded : Type 0 → Type 0
Recorded = Io (List MessageId) (InboxError (Unit {0}))

abbrev taken_with : (MessageId → Claim) → Unit {0} → ClaimRequest → Recorded Claim
taken_with reply conn r taken = (ret (reply r.id), taken ++ (r.id ∷ []))

-- `reply` is how the rows answer; the world is the list of the ids that were claimed.
abbrev recorder : (MessageId → Claim) → InboxStore (List MessageId) (Unit {0})
recorder reply = record {
  Conn = Unit;
  Tx = Unit;
  conn = λ tx. tx;
  drop = λ tx taken. taken;
  begin = pure tt;
  commit = λ tx. pure tt;
  rollback = λ tx. pure tt;
  claim = taken_with reply;
  claim_many = default_claim_many (taken_with reply);
  is_known_duplicate = λ c m. pure false;
  purge = λ policy. pure 0;
}

-- The rows that a call of `claim_many` takes, in order.
abbrev pub rows_taken : ConsumerId → (MessageId → Claim) → List MessageId → List MessageId
rows_taken c reply ids = (claim_many (consumer (recorder reply) c) tt ids []).1

expect-world : {W A : Type 0} (a : Option A) (w : W) → (expect {W = W} {E = Unit {0}} a w).1 ≡ w
expect-world none w = refl
expect-world (some a) w = refl

answers_from-world :
    {W : Type 0} (ids unique : List MessageId) (claims : List Claim) (w : W)
    → (answers_from {E = Unit {0}} ids unique claims w).1 ≡ w
unfolding answers_from
answers_from-world ids unique claims w = elim (Bool-cases (length claims == length unique)) [
  | inl same ↦ rw same (expect-world (answer_ids ids _) w)
  | inr other ↦ rw other refl
]

claim_in_order-taken :
    (reply : MessageId → Claim) (b : ClaimBatch) (ids taken : List MessageId)
    → claim_in_order (taken_with reply) tt b ids taken ≡ (ret (map reply ids), taken ++ ids)
unfolding claim_in_order claim_request
claim_in_order-taken reply b [] taken = ap (λ xs. (ret [], xs)) (sym (append-nil taken))
claim_in_order-taken reply b (m ∷ ms) taken =
    rw (claim_in_order-taken reply b ms (taken ++ (m ∷ [])), append_assoc taken (m ∷ []) ms)

taken_by_default :
    (reply : MessageId → Claim) (b : ClaimBatch)
    → default_claim_many (taken_with reply) tt b [] ≡ (ret (map reply b.ids), b.ids)
unfolding default_claim_many
taken_by_default reply b = claim_in_order-taken reply b b.ids []

-- `claim_many` takes each row of the batch once, whatever the rows answer.
pub rows_taken_lem :
    (c : ConsumerId) (reply : MessageId → Claim) (ids : List MessageId)
    → rows_taken c reply ids ≡ unique_ids ids
unfolding claim_many claim_batch unique_ids dedup sort_unstable_by
rows_taken_lem c reply [] = refl
rows_taken_lem c reply (m ∷ ms) =
    let unique = unique_ids (m ∷ ms) in
    let sent : ClaimBatch = record (claim_batch c unique) { lock_timeout = none } in
    ap (λ ended. (continue ended.0 (answers_from (m ∷ ms) unique) ended.1).1)
      (taken_by_default reply sent)
    ∙ answers_from-world (m ∷ ms) unique (map reply unique) unique
