-- ===== src/Consumer.antt =====
-- src/consumer.rs: a consumer over any backend. Tracing is left out; it changes no result.
pub mod Unique
pub mod Answers
pub mod Claims
pub mod Process
pub mod Steps
pub mod Taken
pub mod Failures
pub mod Redelivery
pub mod Many
pub mod Outcomes
pub mod Singly
pub mod Returns
pub mod Eventually
use txbox.Common.{
  ℕ, ◌+◌, ◌-◌, Bool, true, false, not, Option, none, some, List, [], ◌∷◌, ◌++◌, map, zip, arith,
  ltb, if◌then◌else◌, ◌==◌, nat_eq, length, contains, insert, put, lookup, sort_unstable_by, dedup,
}
use mathlib.Core.Option
use txbox.Error.{BoxError, HandlerError, InboxError}
use txbox.Io.{Io, pure, throw, panic, attempt, or_drop, ◌>>=◌, ◌>>◌}
use txbox.Result.{Result, ok, err}
use txbox.Store.{InboxStore, Savepoints}
use txbox.Str.{Str, str, str_eq, cmp, decimal}
use txbox.Types.{
  Duration, Claim, ClaimBatch, ClaimRequest, claim_request, claim_batch, ConsumerId, MessageId,
  Outcome, message_id_eq, claim_eq,
}

pub record Consumer (W E : Type 0) : Type 1 where
  pub store : InboxStore W E
  pub id : ConsumerId
  pub lock_timeout : Option Duration

module _ {W E : Type 0} where
  -- `Consumer::new`, and `InboxExt::consumer`.
  abbrev pub consumer : InboxStore W E → ConsumerId → Consumer W E
  consumer store id = record { store = store; id = id; lock_timeout = none }

  -- `Consumer::with_lock_timeout`
  unfoldable pub with_lock_timeout : Consumer W E → Duration → Consumer W E
  with_lock_timeout c timeout = record c { lock_timeout = some timeout }

-- The answer to each id: the first occurrence takes the backend's, and leaves `Duplicate` behind.
-- `none` is the panic of `expect`.
pub answer_ids : List MessageId → List (Str × Claim) → Option (List Claim)
answer_ids [] answers = some []
answer_ids (id ∷ ids) answers =
    let (old, left) = insert id.as_str Claim.duplicate answers in
    let rest = answer_ids ids left in
    elim old [ none ↦ none | some k ↦ Option.map (λ ks. k ∷ ks) rest ]

-- `collect` into a map: a later entry replaces an earlier one of its key.
pub collect : List (Str × Claim) → List (Str × Claim) → List (Str × Claim)
collect m [] = m
collect m ((key, k) ∷ entries) = collect (put key k m) entries

-- The ids of a batch, sorted by bytes and without repeats.
unfoldable pub unique_ids : List MessageId → List MessageId
unique_ids ids = dedup (sort_unstable_by (λ a b. cmp a.as_str b.as_str) ids)

-- "claim_many returned {} claims for {} ids"
wrong_count : ℕ → ℕ → Str
wrong_count claims ids =
    str "claim_many returned "
    ++ (decimal claims ++ (str " claims for " ++ (decimal ids ++ str " ids")))

module _ {W E : Type 0} where
  -- `expect`
  abbrev expect : {A : Type 0} → Option A → Io W (InboxError E) A
  expect none = panic
  expect (some a) = pure a

  -- The answers of a batch, read off the backend's claims for the unique ids.
  pub answers_from : List MessageId → List MessageId → List Claim → Io W (InboxError E) (List Claim)
  unfolding answer_ids collect wrong_count
  answers_from ids unique claims =
      if not (length claims == length unique)
      then throw (InboxError.backend (BoxError.text (wrong_count (length claims) (length unique))))
      else expect
          (answer_ids ids (collect [] (zip (map (λ (m : MessageId). m.as_str) unique) claims)))

  module _ (c : Consumer W E) where
    unfoldable pub claim : c.store.Conn → MessageId → Io W (InboxError E) Claim
    claim conn id =
        c.store.claim conn (record (claim_request c.id id) { lock_timeout = c.lock_timeout })

    pub claim_many : c.store.Conn → List MessageId → Io W (InboxError E) (List Claim)
    unfolding answers_from unique_ids
    claim_many conn [] = pure []
    claim_many conn (id ∷ ids) = do
      let unique = unique_ids (id ∷ ids)
      claims ←
          c.store.claim_many conn
            (record (claim_batch c.id unique) { lock_timeout = c.lock_timeout })
      answers_from (id ∷ ids) unique claims

    -- After the handler: its success is committed, its failure rolled back.
    unfoldable pub settle :
        {T : Type 0} → c.store.Tx → Result (HandlerError E) T → Io W (InboxError E) (Outcome T)
    settle tx (ok value) = do c.store.commit tx; pure (Outcome.processed value)
    settle {T} tx (err e) = do
      attempt {F = InboxError E} (c.store.rollback tx)
      throw (InboxError.handler e)

    -- The `match` on the claim.
    unfoldable pub on_claim :
        {T : Type 0}
        → c.store.Tx
        → (c.store.Conn → Io W (HandlerError E) T)
        → Claim
        → Io W (InboxError E) (Outcome T)
    unfolding settle
    on_claim tx handler Claim.duplicate = do c.store.rollback tx; pure Outcome.duplicate
    on_claim tx handler Claim.fresh = do
      result ← or_drop (c.store.drop tx) (attempt (handler (c.store.conn tx)))
      settle tx result

    -- A transaction that is not handed to `commit` or `rollback` is dropped where the code leaves.
    unfoldable pub process :
        {T : Type 0}
        → MessageId
        → (c.store.Conn → Io W (HandlerError E) T)
        → Io W (InboxError E) (Outcome T)
    unfolding claim on_claim
    process id handler = do
      tx ← c.store.begin
      k ← or_drop (c.store.drop tx) (claim (c.store.conn tx) id)
      on_claim tx handler k

    -- For code that claims in a transaction of its own.
    pub is_known_duplicate : MessageId → Io W (InboxError E) Bool
    is_known_duplicate id = c.store.is_known_duplicate c.id id

    unfoldable pub begin : Io W (InboxError E) c.store.Tx
    begin = c.store.begin

    unfoldable pub commit : c.store.Tx → Io W (InboxError E) (Unit {0})
    commit tx = c.store.commit tx

    unfoldable pub rollback : c.store.Tx → Io W (InboxError E) (Unit {0})
    rollback tx = c.store.rollback tx
