-- ===== src/Consumer/Outcomes.antt =====
-- `Consumer::process`, `claim_many` and `process_many` over a backend that keeps its contract: what
-- a call run in a world answers, and what it leaves.
use txbox.Common.{true, false, List, ◌≡◌, refl, none, length}
use txbox.Consumer.{Consumer, claim_many, process}
use txbox.Consumer.Claims.{claim_many_triple}
use txbox.Consumer.Many.{process_many}
use txbox.Consumer.Many.Acks.{Aligned, Processed-acks, length-Processed, is_ok}
use txbox.Consumer.Many.Complete.{process_many_triple, process_many-Returns}
use txbox.Consumer.Many.Runs.{BatchHandlerContract, Processed}
use txbox.Consumer.Process.{
  HandlerContract, AllOrNothing, process-duplicate_triple, process-fresh_triple,
}
use txbox.Error.{HandlerError}
use txbox.Io.{Io}
use txbox.Io.Triple.{Triple, Gives, Triple-mono}
use txbox.Store.{Savepoints}
use txbox.Store.Contract.{Contract, SavepointContract, Db, add, add_all, claim_each}
use txbox.Store.Reliable.{Reliable, ReliableSavepoints}
use txbox.Types.{MessageId, Outcome}

module _ {W E App : Type 0} (c : Consumer W E) (k : Contract c.store App) where
  -- Over a backend that keeps its contract, and a message that is already recorded: `process`
  -- answers `Duplicate` if it returns, and however it ends the committed contents are unchanged; so
  -- nothing of its handler is committed.
  pub process-duplicate :
      {T : Type 0} (id : MessageId) (handler : c.store.Conn → Io W (HandlerError E) T) (w : W)
      → (k.committed w).row c.id id ≡ true
      → Gives w
          (process c id handler)
          (λ o w'. (o ≡ Outcome.duplicate) × (k.committed w' ≡ k.committed w))
          (λ _ w'. k.committed w' ≡ k.committed w)
  process-duplicate id handler w known =
      (process-duplicate_triple c k id handler (k.committed w) known).at w refl

  -- Over a backend that keeps its contract, `Consumer::claim_many` answers a batch, in one
  -- statement, as claims of its ids one after the other would be answered, repeats included; the
  -- connection then sees every id recorded, and however the call ends nothing is committed by it.
  pub claim_many-each :
      (conn : c.store.Conn) (ids : List MessageId) (w : W)
      → Gives w
          (claim_many c conn ids)
          (λ ks w'.
            (k.committed w' ≡ k.committed w)
            × (k.seen conn w' ≡ add_all c.id ids (k.seen conn w))
            × (ks ≡ claim_each c.id ids (k.seen conn w)))
          (λ _ w'. k.committed w' ≡ k.committed w)
  claim_many-each conn ids w =
      (claim_many_triple c k conn ids (k.committed w) (k.seen conn w)).at w (refl, refl)

  -- Over a backend and a handler that keep their contracts, and a message that is not recorded: if
  -- `process` returns, its outcome is the handler's value, and the committed contents are what the
  -- handler made of the contents with the message recorded. If it does not return, by an error, a
  -- panic or a cancellation at an await, the committed contents are unchanged, or the commit has
  -- gone through as a whole, although it reported an error.
  pub process-fresh :
      {T : Type 0} (Post : Db App → T → Db App → Type 0)
      (handler : c.store.Conn → Io W (HandlerError E) T) (id : MessageId) (w : W)
      → HandlerContract c k handler Post
      → (k.committed w).row c.id id ≡ false
      → Gives w
          (process c id handler)
          (λ o w'.
            (value : T) × (o ≡ Outcome.processed value)
            × Post (add c.id id (k.committed w)) value (k.committed w'))
          (λ _ w'. AllOrNothing Post (k.committed w) (add c.id id (k.committed w)) (k.committed w'))
  process-fresh Post handler id w hk new =
      (process-fresh_triple c k Post handler hk id (k.committed w) new).at w refl

  module _ (p : Savepoints c.store) (sk : SavepointContract c.store p App k) where
    -- Over a backend and a handler that keep their contracts, when `process_many` returns, there is
    -- one result for each id, in order, and after the commit a message is recorded exactly if its
    -- result is not an error, provided that the handler leaves the rows of this consumer alone: a broker
    -- that acknowledges what did not fail loses no message.
    pub process_many-acks :
        {T : Type 0} (handler : c.store.Conn → MessageId → Io W (HandlerError E) T)
        (Post : MessageId → Db App → T → Db App → Type 0) (Fail : MessageId → Type 0)
        (ids : List MessageId) (w : W)
        → BatchHandlerContract c p k sk handler Post Fail
        → ((m : MessageId) (v : Db App) (value : T) (u : Db App)
            → Post m v value u
            → (j : MessageId) → u.row c.id j ≡ v.row c.id j)
        → Gives w
            (process_many c p ids handler)
            (λ rs w'. Aligned {E = E} (λ m r. (k.committed w').row c.id m ≡ is_ok r) ids rs)
            (λ _ _. Unit {0})
    process_many-acks handler Post Fail ids w hk keeps =
        let acks =
          Triple-mono
            {Q' = λ rs w'. Aligned {E = E} (λ m r. (k.committed w').row c.id m ≡ is_ok r) ids rs}
            (process_many_triple c p k sk handler Post Fail hk ids (k.committed w)) (λ w' h. h)
            (λ rs w' h.
              Processed-acks c.id Post Fail keeps ids (k.committed w) rs (k.committed w') h)
            (λ x w' h. tt) in
        acks.at w refl

    -- Over a backend that keeps its contract and a handler that keeps its own and may fail, but stops
    -- only if `Faulty`: `process_many` returns, commits what taking the ids in order comes to, and
    -- gives one result for each id; or a call of the backend failed or stopped (`Faulty`, which is
    -- empty where all calls return).
    pub process_many_complete :
        {T : Type 0} (handler : c.store.Conn → MessageId → Io W (HandlerError E) T)
        (Post : MessageId → Db App → T → Db App → Type 0) (Fail : MessageId → Type 0)
        (Faulty : Type 0) (ids : List MessageId) (w : W)
        → BatchHandlerContract c p k sk handler Post Fail
        → Reliable c.store Faulty
        → ReliableSavepoints c.store p k sk Faulty
        → ((conn : c.store.Conn) (m : MessageId)
            → Triple (λ _. Unit {0}) (handler conn m) (λ _ _. Unit {0}) (λ x _. x ≡ none → Faulty))
        → Gives w
            (process_many c p ids handler)
            (λ rs w'.
              Processed {E = E} c.id Post Fail ids (k.committed w) rs (k.committed w')
              × (length rs ≡ length ids))
            (λ _ _. Faulty)
    process_many_complete handler Post Fail Faulty ids w hk f g back =
        let done =
          Triple-mono
            {Q' = λ rs w'.
              Processed {E = E} c.id Post Fail ids (k.committed w) rs (k.committed w')
              × (length rs ≡ length ids)}
            (process_many-Returns c p k sk handler Post Fail hk ids (k.committed w) Faulty f g back)
            (λ w' h. h)
            (λ rs w' h.
              (h, length-Processed c.id Post Fail ids (k.committed w) rs (k.committed w') h))
            (λ x w' h. h) in
        done.at w refl
