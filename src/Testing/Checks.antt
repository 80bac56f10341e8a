-- ===== src/Testing/Checks.antt =====
-- src/testing.rs: the checks of `conformance`, one by one, and the suite.
use txbox.Common.{
  ℕ, zero, suc, ◌-◌, ◌/◌, ◌%◌, Bool, true, false, not, List, [], ◌∷◌, ◌++◌, if◌then◌else◌, ltb,
  ◌==◌, ◌&&◌, replicate,
}
use txbox.Consumer.{consumer, process, claim, claim_many, begin, commit, rollback}
use txbox.Error.{BoxError, HandlerError, InboxError}
use txbox.Io.{Io, Flow, pure, throw, attempt, or_drop, map_err, ◌>>=◌, ◌>>◌}
use txbox.Result.{Result, ok, err}
use txbox.Store.{InboxStore}
use txbox.Str.{Str, str, len, decimal}
use txbox.Testing.{
  Panic, Run, run_new, prefix, expecting, valid, assert, run_consumer, message, claim_and_commit,
  is_committed,
}
use txbox.Types.{
  Claim, claim_eq, claim_request, ConsumerId, MessageId, consumer_id_try_from, consumer_max_len,
  message_max_len, Outcome,
}

-- `PartialEq` of `Outcome<()>`
abbrev pub outcome_beq : Outcome (Unit {0}) → Outcome (Unit {0}) → Bool
outcome_beq (Outcome.processed a) (Outcome.processed b) = true
outcome_beq (Outcome.processed a) Outcome.duplicate = false
outcome_beq Outcome.duplicate (Outcome.processed b) = false
outcome_beq Outcome.duplicate Outcome.duplicate = true

-- `PartialEq` of `Vec<Claim>` and an array.
abbrev pub claims_beq : List Claim → List Claim → Bool
claims_beq [] [] = true
claims_beq [] (b ∷ bs) = false
claims_beq (a ∷ as') [] = false
claims_beq (a ∷ as') (b ∷ bs) = a == b && claims_beq as' bs

-- `matches!(result, Err(InboxError::Handler(_)))`
abbrev pub is_handler_error : {E A : Type 0} → Result (InboxError E) A → Bool
is_handler_error (ok a) = false
is_handler_error (err (InboxError.handler e)) = true
is_handler_error (err (InboxError.backend e)) = false
is_handler_error (err InboxError.contended) = false
is_handler_error (err (InboxError.invalid_id e)) = false

-- The message, less the result that it shows.
abbrev pub must_surface : Str
must_surface = str "a failing handler must surface as InboxError::Handler, got {result:?}"

-- U+1F600
abbrev pub wide : ℕ
wide = 0x1f600

-- `&id[id.len() - 40..]` of a long id, to be shown. The long ones are ASCII: a byte is a character.
abbrev pub drop : ℕ → Str → Str
drop zero s = s
drop (suc n) [] = []
drop (suc n) (c ∷ s) = drop n s

abbrev pub shown : Str → Str
shown id = if ltb 40 (len id) then drop (len id - 40) id else id

abbrev pub long : Str
long = replicate (message_max_len - 1) b'm'

module _ {W E : Type 0} (s : InboxStore W E) where
  unfoldable pub fresh_then_duplicate : Run → Io W (Panic E) (Unit {0})
  fresh_then_duplicate run = do
    consumer_id ← run_consumer run (str "fresh")
    id ← message (str "m")
    let c = consumer s consumer_id
    first ← expecting (str "first process") (process c id (λ conn. pure tt))
    second ← expecting (str "second process") (process c id (λ conn. pure tt))
    assert (outcome_beq first (Outcome.processed tt)) (str "a new message must be processed")
    assert (outcome_beq second Outcome.duplicate) (str "a redelivered message must be a duplicate")

  -- The handler claims under another consumer, and fails.
  unfoldable pub failing_claim : ConsumerId → MessageId → s.Conn → Io W (HandlerError E) (Unit {0})
  failing_claim effects id conn = do
    map_err BoxError.inbox (s.claim conn (claim_request effects id))
    throw (BoxError.text (str "deliberate handler failure"))

  unfoldable pub handler_failure_rolls_back : Run → Io W (Panic E) (Unit {0})
  unfolding failing_claim
  handler_failure_rolls_back run = do
    inbox ← run_consumer run (str "handler-failure")
    effects ← run_consumer run (str "handler-failure-effect")
    id ← message (str "m")
    result ← attempt (process (consumer s inbox) id (failing_claim effects id))
    assert (is_handler_error result) must_surface
    claimed ← is_committed s inbox id
    assert (not claimed) (str "a failed handler's claim must roll back")
    applied ← is_committed s effects id
    assert (not applied) (str "a failed handler's effect must roll back with its claim")

  unfoldable pub explicit_rollback_discards : Run → Io W (Panic E) (Unit {0})
  explicit_rollback_discards run = do
    consumer_id ← run_consumer run (str "rollback")
    id ← message (str "m")
    let c = consumer s consumer_id
    tx ← expecting (str "begin") (begin c)
    or_drop (s.drop tx) (expecting (str "claim") (claim c (s.conn tx) id))
    expecting (str "rollback") (rollback c tx)
    claimed ← is_committed s consumer_id id
    assert (not claimed) (str "InboxStore::rollback must discard the claim")

  -- Leaving the scope of a transaction.
  unfoldable pub leave : s.Tx → Io W (Panic E) (Unit {0})
  leave tx w = (Flow.ret tt, s.drop tx w)

  unfoldable pub dropped_transaction_does_not_persist : Run → Io W (Panic E) (Unit {0})
  unfolding leave
  dropped_transaction_does_not_persist run = do
    consumer_id ← run_consumer run (str "dropped")
    dropped ← message (str "dropped")
    later ← message (str "later")
    let c = consumer s consumer_id
    first ← expecting (str "begin") (begin c)
    or_drop (s.drop first) (expecting (str "claim") (claim c (s.conn first) dropped))
    leave first
    tx ← expecting (str "begin") (begin c)
    or_drop (s.drop tx) (expecting (str "claim") (claim c (s.conn tx) later))
    expecting (str "commit") (commit c tx)
    kept ← is_committed s consumer_id later
    assert kept (str "a committed claim must persist")
    leaked ← is_committed s consumer_id dropped
    assert (not leaked) (
        str
          "a transaction dropped without commit must roll back; its claim was committed later, likely by the next transaction on the same pooled connection")

  -- The loop of `max_length_ids_are_accepted`.
  unfoldable pub accepts_ids : List (ConsumerId × MessageId) → Io W (Panic E) (Unit {0})
  accepts_ids [] = pure tt
  accepts_ids ((consumer_id, id) ∷ rest) = do
    first ← claim_and_commit s consumer_id id
    assert (first == Claim.fresh)
        (str "a max-length id (" ++ (decimal (len id.as_str) ++ str " bytes) must be accepted"))
    second ← claim_and_commit s consumer_id id
    assert (second == Claim.duplicate) (str "a max-length id must deduplicate")
    accepts_ids rest

  -- `ConsumerId::MAX_LEN - prefix.len()` does not underflow: a prefix has 29 bytes.
  unfoldable pub max_length_ids_are_accepted : Run → Io W (Panic E) (Unit {0})
  unfolding accepts_ids
  max_length_ids_are_accepted run = do
    let room = consumer_max_len - len (prefix run)
    ascii_consumer ←
        valid (str "max consumer id") (consumer_id_try_from (prefix run ++ replicate room b'x'))
    wide_consumer ← valid (str "max consumer id") (
        consumer_id_try_from
          (prefix run ++ (replicate (room / 4) wide ++ replicate (room % 4) b'y')))
    ascii_id ← message (replicate message_max_len b'm')
    wide_id ← message (replicate (message_max_len / 4) wide)
    accepts_ids ((ascii_consumer, ascii_id) ∷ (wide_consumer, wide_id) ∷ [])

  -- The loop of `ids_compare_byte_for_byte`.
  unfoldable pub distinguishes : ConsumerId → List Str → Io W (Panic E) (Unit {0})
  distinguishes consumer_id [] = pure tt
  distinguishes consumer_id (id ∷ ids) = do
    m ← message id
    k ← claim_and_commit s consumer_id m
    assert (k == Claim.fresh) (
        str "`"
        ++ (shown id
            ++ str
                "` collided with an earlier, different id: ids must compare byte for byte (a truncating column or a case- or accent-insensitive collation merges distinct messages)"))
    distinguishes consumer_id ids

  unfoldable pub ids_compare_byte_for_byte : Run → Io W (Panic E) (Unit {0})
  unfolding distinguishes
  ids_compare_byte_for_byte run = do
    consumer_id ← run_consumer run (str "bytes")
    distinguishes consumer_id (
        (long ++ str "a")
        ∷ (long ++ str "b")
        ∷ str "Order-1"
        ∷ str "order-1"
        ∷ (str "caf" ++ 0xe9 ∷ [])
        ∷ str "cafe"
        ∷ [])

  -- Whether each id of the consumer is committed.
  unfoldable pub commits_ids : ConsumerId → List Str → Io W (Panic E) (Unit {0})
  commits_ids consumer_id [] = pure tt
  commits_ids consumer_id (id ∷ ids) = do
    m ← message id
    claimed ← is_committed s consumer_id m
    assert claimed (str "claim_many's fresh claims must commit")
    commits_ids consumer_id ids

  unfoldable pub claim_many_matches_single_claims : Run → Io W (Panic E) (Unit {0})
  unfolding commits_ids
  claim_many_matches_single_claims run = do
    consumer_id ← run_consumer run (str "claim-many")
    let c = consumer s consumer_id
    known ← message (str "b")
    k ← claim_and_commit s consumer_id known
    assert (k == Claim.fresh) (str "assertion `left == right` failed")
    m0 ← message (str "c")
    m1 ← message (str "b")
    m2 ← message (str "a")
    m3 ← message (str "c")
    tx ← expecting (str "begin") (begin c)
    claims ←
        or_drop (s.drop tx)
          (expecting (str "claim_many") (claim_many c (s.conn tx) (m0 ∷ m1 ∷ m2 ∷ m3 ∷ [])))
    expecting (str "commit") (commit c tx)
    assert (claims_beq claims (Claim.fresh ∷ Claim.duplicate ∷ Claim.fresh ∷ Claim.duplicate ∷ []))
        (str
          "claim_many must answer like one claim per id, in input order, with repeats as duplicates")
    commits_ids consumer_id (str "a" ∷ str "c" ∷ [])

  -- `conformance`, for the hash that `Run::new` draws.
  unfoldable pub conformance : ℕ → Io W (Panic E) (Unit {0})
  conformance n = do
    let run = run_new n
    fresh_then_duplicate run
    handler_failure_rolls_back run
    explicit_rollback_discards run
    dropped_transaction_does_not_persist run
    max_length_ids_are_accepted run
    ids_compare_byte_for_byte run
    claim_many_matches_single_claims run
