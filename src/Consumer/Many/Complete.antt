-- ===== src/Consumer/Many/Complete.antt =====
-- `process_many` as a whole: over a backend that keeps its contract, and over one whose calls return.
use txbox.Common.{◌≡◌, ◌⊎◌, inl, sym, ◌∙◌, Option, none, List, [], ◌∷◌, zip}
use txbox.Consumer.{Consumer}
use txbox.Consumer.Process.{commit_post}
use txbox.Consumer.Many.{ProcessResult, process_many}
use txbox.Consumer.Many.Refines.{run_batch_triple}
use txbox.Consumer.Many.Steps.{Steps, contract_steps, reliable_steps}
use txbox.Consumer.Many.Runs.{Processed, BatchHandlerContract}
use txbox.Error.{HandlerError, InboxError}
use txbox.Io.{Io}
use txbox.Io.Triple.{Triple, Triple-pure, Triple-bind, Triple-mono, Triple-or_drop}
use txbox.Store.{Savepoints}
use txbox.Store.Contract.{Contract, SavepointContract, Db}
use txbox.Store.Defaults.{add_all-nil}
use txbox.Store.Reliable.{Reliable, ReliableSavepoints, Triple-Returns}
use txbox.Types.{MessageId}

-- What `process_many` does where its calls do as `Steps` says, and what comes of the others.
batch_triple :
    {W E App T : Type 0} (c : Consumer W E) (p : Savepoints c.store) (k : Contract c.store App)
    (sk : SavepointContract c.store p App k)
    (handler : c.store.Conn → MessageId → Io W (HandlerError E) T)
    (Post : MessageId → Db App → T → Db App → Type 0) (Fail : MessageId → Type 0)
    (ids : List MessageId) (d : Db App) (R : Option (InboxError E) → W → Type 0) (Bad : W → Type 0)
    → ((conn : c.store.Conn) → Steps c p k sk handler Post Fail conn d Bad)
    → Triple
        (λ w. k.committed w ≡ d)
        c.store.begin
        (λ tx w. (k.committed w ≡ d) × (k.seen (c.store.conn tx) w ≡ d))
        R
    → ((tx : c.store.Tx) (x : Option (InboxError E)) (w : W) → Bad w → R x (c.store.drop tx w))
    → ((tx : c.store.Tx) (rs : List (ProcessResult E T))
        → Triple
            (λ w.
              (k.committed w ≡ d) × Processed c.id Post Fail ids d rs (k.seen (c.store.conn tx) w))
            (c.store.commit tx)
            (λ _ w. Processed c.id Post Fail ids d rs (k.committed w))
            R)
    → Triple
        (λ w. k.committed w ≡ d)
        (process_many c p ids handler)
        (λ rs w. Processed {E = E} c.id Post Fail ids d rs (k.committed w))
        R
unfolding process_many zip
batch_triple c p k sk handler Post Fail [] d R Bad steps begins drops commits =
    Triple-pure [] (λ w h. h ∙ sym (add_all-nil c.id d))
batch_triple c p k sk handler Post Fail (m ∷ ms) d R Bad steps begins drops commits =
    Triple-bind begins (λ tx.
      Triple-bind
        (Triple-or_drop (c.store.drop tx)
          (run_batch_triple c p k sk handler Post Fail (c.store.conn tx) d Bad
            (steps (c.store.conn tx)) (m ∷ ms))
          (drops tx))
        (λ rs. Triple-bind (commits tx rs) (λ _. Triple-pure rs (λ w h. h))))

module _ {W E App T : Type 0} (c : Consumer W E) (p : Savepoints c.store) (k : Contract c.store App)
    (sk : SavepointContract c.store p App k)
    (handler : c.store.Conn → MessageId → Io W (HandlerError E) T)
    (Post : MessageId → Db App → T → Db App → Type 0) (Fail : MessageId → Type 0)
    (hk : BatchHandlerContract c p k sk handler Post Fail) (ids : List MessageId) (d : Db App) where
  -- `process_many` does to a batch what `Runs` says, message by message, and commits it as a whole;
  -- or it fails, and the committed contents are unchanged, or the commit went through as a whole
  -- although it reported an error.
  pub process_many_triple :
      Triple
        (λ w. k.committed w ≡ d)
        (process_many c p ids handler)
        (λ rs w. Processed {E = E} c.id Post Fail ids d rs (k.committed w))
        (λ _ w.
          (k.committed w ≡ d)
          ⊎ ((rs : List (ProcessResult E T)) × Processed c.id Post Fail ids d rs (k.committed w)))
  process_many_triple =
      batch_triple c p k sk handler Post Fail ids d _ (λ w. k.committed w ≡ d)
        (λ conn. contract_steps c p k sk handler Post Fail hk conn d)
        (Triple-mono (k.begin_lem d) (λ w h. h) (λ tx w h. h) (λ x w h. inl h))
        (λ tx x w h. inl (k.drop_lem tx w ∙ h))
        (λ tx rs. commit_post c k (λ v rs' v'. Processed c.id Post Fail ids v rs' v') tx d d rs)

  -- Over a backend whose calls return, with a handler that may fail but does not stop, it does so.
  pub process_many-Returns :
      (Faulty : Type 0)
      → Reliable c.store Faulty
      → ReliableSavepoints c.store p k sk Faulty
      → ((conn : c.store.Conn) (m : MessageId)
          → Triple (λ _. Unit {0}) (handler conn m) (λ _ _. Unit {0}) (λ x _. x ≡ none → Faulty))
      → Triple
          (λ w. k.committed w ≡ d)
          (process_many c p ids handler)
          (λ rs w. Processed {E = E} c.id Post Fail ids d rs (k.committed w))
          (λ _ _. Faulty)
  process_many-Returns Faulty f g back =
      batch_triple c p k sk handler Post Fail ids d _ (λ _. Faulty)
        (λ conn. reliable_steps c p k sk handler Post Fail hk conn d Faulty f g (back conn))
        (Triple-Returns (k.begin_lem d) f.begin_lem) (λ tx x w h. h)
        (λ tx rs.
          Triple-Returns
            (commit_post c k (λ v rs' v'. Processed c.id Post Fail ids v rs' v') tx d d rs)
            (f.commit_lem tx))
