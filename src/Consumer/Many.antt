-- ===== src/Consumer/Many.antt =====
-- src/consumer.rs, `Consumer::process_many`: one transaction for a batch, one savepoint at a time
-- for each message.
pub mod Runs
pub mod Steps
pub mod Refines
pub mod Complete
pub mod Each
pub mod Acks
use txbox.Common.{
  ℕ, zero, suc, Bool, true, false, List, [], ◌∷◌, ◌++◌, zip, ltb, if◌then◌else◌, ◌==◌, contains,
}
use txbox.Consumer.{Consumer, claim_many}
use txbox.Error.{BoxError, HandlerError, InboxError}
use txbox.Io.{Io, pure, panic, attempt, or_drop, ◌>>=◌, ◌>>◌}
use txbox.Result.{Result, ok, err}
use txbox.Store.{InboxStore, Savepoints}
use txbox.Str.{Str, str, str_eq}
use txbox.Types.{Claim, ConsumerId, MessageId, Outcome, claim_eq}

-- `ProcessResult<T>`
abbrev pub ProcessResult : Type 0 → Type 0 → Type 0
ProcessResult E T = Result (HandlerError E) (Outcome T)

-- `claims.iter().filter(|c| **c == Claim::Fresh).count()`
pub count_fresh : List Claim → ℕ
count_fresh [] = 0
count_fresh (k ∷ ks) = if k == Claim.fresh then suc (count_fresh ks) else count_fresh ks

-- "an earlier delivery of `{id}` in this batch failed"
pub earlier_failed : {E : Type 0} → MessageId → HandlerError E
earlier_failed id =
    BoxError.text (str "an earlier delivery of `" ++ (id.as_str ++ str "` in this batch failed"))

-- The result of a message that the batch does not handle: a repeat of one that failed fails too.
unfoldable pub skip_result : {E T : Type 0} → List Str → MessageId → ProcessResult E T
skip_result failed id =
    if contains failed id.as_str then err (earlier_failed id) else ok Outcome.duplicate

module _ {W E : Type 0} (c : Consumer W E) (p : Savepoints c.store) where
  -- The savepoint of the next message, if there is one.
  pub next_savepoint : c.store.Conn → ℕ → Io W (InboxError E) (Unit {0})
  next_savepoint conn pending =
      if ltb 0 pending then p.release_and_savepoint conn else p.release conn

module _ {W E T : Type 0} (c : Consumer W E) (p : Savepoints c.store) where
  -- After the handler: a failure is undone and its claim deleted. The ids that have failed, and the
  -- result.
  pub conclude :
      c.store.Conn
      → MessageId
      → List Str
      → Result (HandlerError E) T
      → Io W (InboxError E) (List Str × ProcessResult E T)
  conclude conn id failed (ok value) = pure (failed, ok (Outcome.processed value))
  conclude conn id failed (err e) = do
    p.rollback_to conn
    p.unclaim conn c.id id
    pure (id.as_str ∷ failed, err e)

  module _ (conn : c.store.Conn)
      (handler : c.store.Conn → MessageId → Io W (HandlerError E) T) where
    -- The turn of a fresh message. `pending -= 1` panics at zero.
    pub handle_fresh :
        MessageId → ℕ → List Str → Io W (InboxError E) (ℕ × List Str × ProcessResult E T)
    unfolding conclude next_savepoint
    handle_fresh id zero failed = panic
    handle_fresh id (suc pending) failed = do
      result ← attempt (handler conn id)
      (failed', reported) ← conclude conn id failed result
      next_savepoint c p conn pending
      pure (pending, failed', reported)

    -- The `for` loop, with its variables.
    pub run_loop :
        List (MessageId × Claim)
        → ℕ
        → List Str
        → List (ProcessResult E T)
        → Io W (InboxError E) (List (ProcessResult E T))
    unfolding handle_fresh
    run_loop [] pending failed results = pure results
    run_loop ((id, Claim.duplicate) ∷ rest) pending failed results =
        run_loop rest pending failed (results ++ (skip_result failed id ∷ []))
    run_loop ((id, Claim.fresh) ∷ rest) pending failed results = do
      (pending', failed', reported) ← handle_fresh id pending failed
      run_loop rest pending' failed' (results ++ (reported ∷ []))

    -- What runs between `begin` and `commit`.
    pub run_batch : List MessageId → Io W (InboxError E) (List (ProcessResult E T))
    unfolding run_loop
    run_batch ids = do
      claims ← claim_many c conn ids
      let pending = count_fresh claims
      if ltb 0 pending then p.savepoint conn else pure tt
      run_loop (zip ids claims) pending [] []

  -- Every `?` before the commit leaves the function, and drops the transaction.
  pub process_many :
      List MessageId
      → (c.store.Conn → MessageId → Io W (HandlerError E) T)
      → Io W (InboxError E) (List (ProcessResult E T))
  unfolding run_batch
  process_many [] handler = pure []
  process_many (id ∷ ids) handler = do
    tx ← c.store.begin
    results ← or_drop (c.store.drop tx) (run_batch (c.store.conn tx) handler (id ∷ ids))
    c.store.commit tx
    pure results
