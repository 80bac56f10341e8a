-- ===== src/Types.antt =====
-- src/types.rs: the identifiers and how they are validated, and the requests and answers.
pub mod Ids
pub mod Scoped
use txbox.Common.{
  ℕ, ◌+◌, ◌≡◌, ◌↔◌, ap, Bool, true, false, ◌||◌, Option, none, some, List, [], ◌∷◌, ◌++◌,
  if◌then◌else◌, ltb, PartialEq, ◌==◌, not, nat_eq, contains, arith,
}
use txbox.Result.{Result, ok, err, ◌>>=◌, ◌>>◌}
use txbox.Error.{InvalidId}
use txbox.Str.{Str, len, trim, is_empty, str_eq, str_beq_iff}

-- `Duration`, as a number of nanoseconds (`as_nanos`).
abbrev pub Duration : Type 0
Duration = ℕ

pub record ConsumerId : Type 0 where
  pub as_str : Str

pub record MessageId : Type 0 where
  pub as_str : Str

abbrev pub consumer_max_len : ℕ
consumer_max_len = 255

abbrev pub message_max_len : ℕ
message_max_len = 512

-- `TryFrom<String>` of the macro `string_newtype`, for the limit that it is given.
unfoldable pub check_id : ℕ → Str → Result InvalidId Str
check_id max_len value =
    if is_empty (trim value)
    then err InvalidId.empty
    else if not (len (trim value) == len value)
    then err InvalidId.surrounding_whitespace
    else if ltb max_len (len value)
    then err (InvalidId.too_long (len value) max_len)
    else ok value

unfoldable pub consumer_id_try_from : Str → Result InvalidId ConsumerId
unfolding check_id
consumer_id_try_from value = do v ← check_id consumer_max_len value; ok (record { as_str = v })

unfoldable pub message_id_try_from : Str → Result InvalidId MessageId
unfolding check_id
message_id_try_from value = do v ← check_id message_max_len value; ok (record { as_str = v })

-- One turn of the loop of `scoped`.
pub check_part : Str → Result InvalidId (Unit {0})
check_part part =
    if is_empty (trim part)
    then err InvalidId.empty
    else if not (len (trim part) == len part)
    then err InvalidId.surrounding_whitespace
    else ok tt

unfoldable pub scoped : Str → Str → Result InvalidId MessageId
unfolding check_part message_id_try_from
scoped scope id =
    if contains scope b':'
    then err InvalidId.scope_contains_separator
    else do check_part scope; check_part id; message_id_try_from (scope ++ (b':' ∷ id))

pub data Claim : Type 0 where
  fresh duplicate : Claim

pub record ClaimRequest : Type 0 where
  pub consumer : ConsumerId
  pub id : MessageId
  pub lock_timeout : Option Duration

-- `ClaimRequest::new`
unfoldable pub claim_request : ConsumerId → MessageId → ClaimRequest
claim_request consumer id = record { consumer = consumer; id = id; lock_timeout = none }

-- `ClaimRequest::with_lock_timeout`
pub request_with_lock_timeout : ClaimRequest → Duration → ClaimRequest
request_with_lock_timeout r timeout = record r { lock_timeout = some timeout }

pub record ClaimBatch : Type 0 where
  pub consumer : ConsumerId
  pub ids : List MessageId
  pub lock_timeout : Option Duration

-- `ClaimBatch::new`
unfoldable pub claim_batch : ConsumerId → List MessageId → ClaimBatch
claim_batch consumer ids = record { consumer = consumer; ids = ids; lock_timeout = none }

-- `ClaimBatch::with_lock_timeout`
pub batch_with_lock_timeout : ClaimBatch → Duration → ClaimBatch
batch_with_lock_timeout b timeout = record b { lock_timeout = some timeout }

pub data Outcome (T : Type 0) : Type 0 where
  processed : T → Outcome T
  duplicate : Outcome T

-- `Outcome::processed`
pub outcome_processed : {T : Type 0} → Outcome T → Option T
outcome_processed (Outcome.processed value) = some value
outcome_processed Outcome.duplicate = none

-- `PartialEq` of the newtypes and of `Claim`.
abbrev pub message_id_beq : MessageId → MessageId → Bool
message_id_beq a b = a.as_str == b.as_str

pub message_id_beq_iff : (a b : MessageId) → (message_id_beq a b ≡ true) ↔ (a ≡ b)
message_id_beq_iff a b = (
  λ h.
      let same : a.as_str ≡ b.as_str = (str_beq_iff a.as_str b.as_str).0 h in
      λ i. record { as_str = same i },
  λ e. (str_beq_iff a.as_str b.as_str).1 (ap (λ (m : MessageId). m.as_str) e),
)

instance abbrev pub message_id_eq : PartialEq MessageId
message_id_eq = record { eq = message_id_beq; eq_reflects = message_id_beq_iff }

abbrev pub consumer_id_beq : ConsumerId → ConsumerId → Bool
consumer_id_beq a b = a.as_str == b.as_str

pub consumer_id_beq_iff : (a b : ConsumerId) → (consumer_id_beq a b ≡ true) ↔ (a ≡ b)
consumer_id_beq_iff a b = (
  λ h.
      let same : a.as_str ≡ b.as_str = (str_beq_iff a.as_str b.as_str).0 h in
      λ i. record { as_str = same i },
  λ e. (str_beq_iff a.as_str b.as_str).1 (ap (λ (c : ConsumerId). c.as_str) e),
)

instance abbrev pub consumer_id_eq : PartialEq ConsumerId
consumer_id_eq = record { eq = consumer_id_beq; eq_reflects = consumer_id_beq_iff }

abbrev pub claim_beq : Claim → Claim → Bool
claim_beq Claim.fresh Claim.fresh = true
claim_beq Claim.fresh Claim.duplicate = false
claim_beq Claim.duplicate Claim.fresh = false
claim_beq Claim.duplicate Claim.duplicate = true

pub claim_beq_iff : (a b : Claim) → (claim_beq a b ≡ true) ↔ (a ≡ b)
claim_beq_iff a b = ground arith

instance abbrev pub claim_eq : PartialEq Claim
claim_eq = record { eq = claim_beq; eq_reflects = claim_beq_iff }
