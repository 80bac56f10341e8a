-- ===== src/Testing.antt =====
-- src/testing.rs: the conformance suite for backends. Here is what the checks share; a failed `expect`
-- and a failed assertion are panics that carry their message.
pub mod Checks
pub mod Names
pub mod Probes
pub mod Processes
pub mod Rollbacks
pub mod Accepted
pub mod Ids
pub mod Dropped
pub mod Single
pub mod Suite
pub mod Repeats
pub mod Backends
pub mod Batches
pub mod Poisons
pub mod Sound
pub mod Poisoned
pub mod Savepoints
use txbox.Common.{
  ℕ, zero, suc, ◌+◌, ◌-◌, ◌/◌, ◌%◌, Bool, true, false, not, List, [], ◌∷◌, ◌++◌, if◌then◌else◌, ltb,
  ◌==◌,
}
use txbox.Error.{InboxError, InvalidId}
use txbox.Io.{Io, pure, throw, or_drop, map_err, ◌>>=◌, ◌>>◌}
use txbox.Result.{Result, ok, err}
use txbox.Store.{InboxStore}
use txbox.Str.{Str, str}
use txbox.Types.{
  Claim, claim_eq, claim_request, ConsumerId, MessageId, consumer_id_try_from, message_id_try_from,
}

pub data Panic (E : Type 0) : Type 0 where
  -- `.expect(what)` on an error of the store
  expected : Str → InboxError E → Panic E
  -- `.expect(what)` on an id that is refused
  refused : Str → InvalidId → Panic E
  -- `assert!`, `assert_eq!`
  violated : Str → Panic E

-- `{:016x}` of a `u64`: sixteen digits.
unfoldable pub hex_digit : ℕ → ℕ
hex_digit n = if ltb n 10 then 48 + n else 87 + n

unfoldable pub hex_digits : ℕ → ℕ → Str → Str
unfolding hex_digit
hex_digits zero n acc = acc
hex_digits (suc k) n acc = hex_digits k (n / 16) (hex_digit (n % 16) ∷ acc)

pub record Run : Type 0 where
  pub nonce : Str

-- `Run::new`, for the hash that the run draws.
unfoldable pub run_new : ℕ → Run
unfolding hex_digits
run_new n = record { nonce = hex_digits 16 n [] }

-- `Run::prefix`
abbrev pub prefix : Run → Str
prefix run = str "conformance-" ++ (run.nonce ++ str "-")

module _ {W E : Type 0} where
  -- `.await.expect(what)`
  abbrev pub expecting : {A : Type 0} → Str → Io W (InboxError E) A → Io W (Panic E) A
  expecting what m = map_err (Panic.expected what) m

  -- `.expect(what)` on an id that is constructed
  abbrev pub valid : {A : Type 0} → Str → Result InvalidId A → Io W (Panic E) A
  valid what (ok a) = pure a
  valid what (err e) = throw (Panic.refused what e)

  -- `assert!(holds, message)`
  abbrev pub assert : Bool → Str → Io W (Panic E) (Unit {0})
  assert true what = pure tt
  assert false what = throw (Panic.violated what)

  -- `Run::consumer`
  pub run_consumer : Run → Str → Io W (Panic E) ConsumerId
  run_consumer run check =
      valid (str "valid consumer id") (consumer_id_try_from (prefix run ++ check))

  pub message : Str → Io W (Panic E) MessageId
  message id = valid (str "valid message id") (message_id_try_from id)

  module _ (s : InboxStore W E) where
    -- A panic drops the transaction that is open.
    pub claim_and_commit : ConsumerId → MessageId → Io W (Panic E) Claim
    claim_and_commit consumer id = do
      tx ← expecting (str "begin") s.begin
      k ←
          or_drop (s.drop tx)
            (expecting (str "claim") (s.claim (s.conn tx) (claim_request consumer id)))
      expecting (str "commit") (s.commit tx)
      pure k

    pub is_committed : ConsumerId → MessageId → Io W (Panic E) Bool
    is_committed consumer id = do
      tx ← expecting (str "begin") s.begin
      k ←
          or_drop (s.drop tx)
            (expecting (str "claim") (s.claim (s.conn tx) (claim_request consumer id)))
      expecting (str "rollback") (s.rollback tx)
      pure (k == Claim.duplicate)
