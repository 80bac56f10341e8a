-- ===== src/Testing/Batches.antt =====
-- src/testing.rs, `savepoints_conformance`: the check of `process_many`.
use txbox.Common.{
  ℕ, zero, suc, Bool, true, false, not, List, [], ◌∷◌, ◌++◌, zip, if◌then◌else◌, ◌==◌, bool_eq,
  contains,
}
use txbox.Consumer.{consumer}
use txbox.Consumer.Many.{ProcessResult, process_many}
use txbox.Error.{BoxError, HandlerError}
use txbox.Io.{Io, pure, throw, map_err, ◌>>=◌, ◌>>◌}
use txbox.Result.{Result, ok, err}
use txbox.Store.{InboxStore, Savepoints}
use txbox.Str.{Str, str, str_eq, decimal}
use txbox.Testing.{
  Panic, run_new, expecting, assert, run_consumer, message, claim_and_commit, is_committed,
}
use txbox.Types.{Claim, claim_eq, claim_request, ConsumerId, MessageId, Outcome}

-- `(0..10).map(|i| format!("m{i}"))`, from `i` on.
unfoldable pub numbered : ℕ → ℕ → List Str
numbered zero i = []
numbered (suc n) i = (str "m" ++ decimal i) ∷ numbered n (suc i)

-- The texts of the batch: a repeat of a poison must fail too, and one of a success is a duplicate.
unfoldable pub batch_ids : List Str
unfolding numbered
batch_ids = numbered 10 0 ++ (str "m5" ∷ str "m3" ∷ [])

abbrev pub poisons : List Str
poisons = str "m0" ∷ str "m5" ∷ str "m9" ∷ []

-- Processed before the batch.
abbrev pub known : Str
known = str "m7"

-- `matches!(result, Ok(Outcome::Duplicate))`
abbrev pub is_duplicate : {E T : Type 0} → ProcessResult E T → Bool
is_duplicate (ok (Outcome.processed value)) = false
is_duplicate (ok Outcome.duplicate) = true
is_duplicate (err e) = false

-- `Result::is_err`
abbrev pub is_err : {E A : Type 0} → Result E A → Bool
is_err (ok a) = false
is_err (err e) = true

module _ {W E : Type 0} where
  unfoldable pub messages : List Str → Io W (Panic E) (List MessageId)
  messages [] = pure []
  messages (id ∷ ids) = do m ← message id; rest ← messages ids; pure (m ∷ rest)

  module _ (s : InboxStore W E) where
    -- The handler: its effect is a claim under another consumer.
    unfoldable pub poisoned_handler :
        ConsumerId → s.Conn → MessageId → Io W (HandlerError E) (Unit {0})
    poisoned_handler effects conn id = do
      map_err BoxError.inbox (s.claim conn (claim_request effects id))
      if contains poisons id.as_str then throw (BoxError.text (str "poison")) else pure tt

    -- The body of the loop for a message that was processed before, and for the others.
    unfoldable pub check_known :
        ConsumerId → MessageId → ProcessResult E (Unit {0}) → Io W (Panic E) (Unit {0})
    check_known effects id result = do
      assert (is_duplicate result) (
          id.as_str
          ++ str " was processed before the batch and must be a duplicate, got {result:?}")
      applied ← is_committed s effects id
      assert (not applied)
          (id.as_str ++ str ": the handler must not run for an already-processed message")

    unfoldable pub check_result :
        ConsumerId → ConsumerId → MessageId → ProcessResult E (Unit {0}) → Io W (Panic E) (Unit {0})
    check_result inbox effects id result = do
      let poisoned = contains poisons id.as_str
      assert (is_err result == poisoned)
          (str "result for " ++ (id.as_str ++ str " must be an error iff it is a poison"))
      claimed ← is_committed s inbox id
      assert (claimed == not poisoned)
          (id.as_str ++ str ": claim must commit iff its handler succeeded")
      applied ← is_committed s effects id
      assert (applied == not poisoned)
          (id.as_str ++ str ": effect must commit iff its handler succeeded")

    unfoldable pub check_results :
        ConsumerId
        → ConsumerId
        → List (MessageId × ProcessResult E (Unit {0}))
        → Io W (Panic E) (Unit {0})
    unfolding check_known check_result
    check_results inbox effects [] = pure tt
    check_results inbox effects ((id, result) ∷ rest) = do
      if id.as_str == known
          then check_known effects id result
          else check_result inbox effects id result
      check_results inbox effects rest

    -- `savepoints_conformance`, for the hash that `Run::new` draws.
    unfoldable pub savepoints_conformance : Savepoints s → ℕ → Io W (Panic E) (Unit {0})
    unfolding batch_ids messages poisoned_handler check_results
    savepoints_conformance p n = do
      let run = run_new n
      inbox ← run_consumer run (str "process-many")
      effects ← run_consumer run (str "process-many-effect")
      ids ← messages batch_ids
      known_id ← message known
      k ← claim_and_commit s inbox known_id
      assert (k == Claim.fresh) (str "assertion `left == right` failed")
      results ←
          expecting (str "process_many")
            (process_many (consumer s inbox) p ids (poisoned_handler effects))
      check_results inbox effects (zip ids results)
