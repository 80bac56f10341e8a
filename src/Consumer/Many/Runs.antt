-- ===== src/Consumer/Many/Runs.antt =====
-- What `process_many` promises of a batch, told message by message over the contents alone.
use txbox.Common.{◌≡◌, ◌≢◌, none, some, List, [], ◌∷◌, zip}
use txbox.Consumer.{Consumer}
use txbox.Consumer.Many.{ProcessResult, skip_result}
use txbox.Error.{HandlerError}
use txbox.Io.{Io}
use txbox.Io.Triple.{Triple}
use txbox.Result.{ok, err}
use txbox.Store.{Savepoints}
use txbox.Store.Contract.{Contract, SavepointContract, Db, remove, add_all, claim_each}
use txbox.Str.{Str}
use txbox.Types.{Claim, ConsumerId, MessageId, Outcome}

module _ {E App T : Type 0} (i : ConsumerId) (Post : MessageId → Db App → T → Db App → Type 0)
    (Fail : MessageId → Type 0) where
  -- A fresh message, from the contents `v`: handled, with what the handler did; or failed, with
  -- the contents as they were before it, less its own claim.
  abbrev pub Turned : MessageId → List Str → Db App → List Str → ProcessResult E T → Db App → Type 0
  Turned m failed v failed' (ok (Outcome.processed value)) u = (failed' ≡ failed) × Post m v value u
  Turned m failed v failed' (ok Outcome.duplicate) u = ⊥
  Turned m failed v failed' (err e) u = (failed' ≡ m.as_str ∷ failed) × (u ≡ remove i m v) × Fail m

  -- The claimed messages with their results, from the contents `v` to `v'`.
  abbrev pub Runs :
      List (MessageId × Claim) → List Str → Db App → List (ProcessResult E T) → Db App → Type 0
  Runs [] failed v [] v' = v' ≡ v
  Runs [] failed v (r ∷ rs) v' = ⊥
  Runs (entry ∷ entries) failed v [] v' = ⊥
  Runs ((m, Claim.duplicate) ∷ entries) failed v (r ∷ rs) v' =
      (r ≡ skip_result failed m) × Runs entries failed v rs v'
  Runs ((m, Claim.fresh) ∷ entries) failed v (r ∷ rs) v' =
      (failed' : List Str) × (u : Db App) × Turned m failed v failed' r u
      × Runs entries failed' u rs v'

  -- A whole batch on the contents `d`: every id is claimed, then each turn is taken.
  abbrev pub Processed : List MessageId → Db App → List (ProcessResult E T) → Db App → Type 0
  Processed ids d rs d' = Runs (zip ids (claim_each i ids d)) [] (add_all i ids d) rs d'

-- A handler of a batch works on the connection that it is given, and leaves the savepoint open.
-- When it succeeds, it has turned the contents as `Post` says; it fails only on messages that `Fail`
-- admits.
pub record BatchHandlerContract {W E App T : Type 0} (c : Consumer W E) (p : Savepoints c.store)
    (k : Contract c.store App) (sk : SavepointContract c.store p App k)
    (handler : c.store.Conn → MessageId → Io W (HandlerError E) T)
    (Post : MessageId → Db App → T → Db App → Type 0) (Fail : MessageId → Type 0) : Type 0 where
  pub run_lem :
      (conn : c.store.Conn) (m : MessageId) (d v : Db App)
      → Triple
          (λ w. (k.committed w ≡ d) × (k.seen conn w ≡ v) × (sk.marked conn w ≡ some v))
          (handler conn m)
          (λ value w.
            (k.committed w ≡ d) × (sk.marked conn w ≡ some v) × Post m v value (k.seen conn w))
          (λ x w. (k.committed w ≡ d) × (x ≢ none → (sk.marked conn w ≡ some v) × Fail m))
