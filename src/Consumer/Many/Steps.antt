-- ===== src/Consumer/Many/Steps.antt =====
-- What the calls of one batch do, and what holds where one of them does not return (`Bad`): over a
-- backend that keeps its contract nothing is committed, and over one whose calls return, besides,
-- it does not come to that.
use txbox.Common.{◌≡◌, ◌≢◌, none, some, List}
use txbox.Consumer.{Consumer, claim_many}
use txbox.Consumer.Claims.{claim_many_triple, claim_many-Returns}
use txbox.Consumer.Many.Runs.{BatchHandlerContract}
use txbox.Error.{HandlerError}
use txbox.Io.{Io}
use txbox.Io.Triple.{Triple, Triple-mono, Triple-and}
use txbox.Store.{Savepoints}
use txbox.Store.Contract.{Contract, SavepointContract, Db, remove, add_all, claim_each}
use txbox.Store.Reliable.{Reliable, ReliableSavepoints, Triple-Faulty, Triple-Returns}
use txbox.Types.{MessageId}

pub record Steps {W E App T : Type 0} (c : Consumer W E) (p : Savepoints c.store)
    (k : Contract c.store App) (sk : SavepointContract c.store p App k)
    (handler : c.store.Conn → MessageId → Io W (HandlerError E) T)
    (Post : MessageId → Db App → T → Db App → Type 0) (Fail : MessageId → Type 0)
    (conn : c.store.Conn) (d : Db App) (Bad : W → Type 0) : Type 0 where
  pub claim_many_lem :
      (ids : List MessageId)
      → Triple
          (λ w. (k.committed w ≡ d) × (k.seen conn w ≡ d))
          (claim_many c conn ids)
          (λ ks w.
            (k.committed w ≡ d)
            × (k.seen conn w ≡ add_all c.id ids d)
            × (ks ≡ claim_each c.id ids d))
          (λ _. Bad)
  pub savepoint_lem :
      (v : Db App)
      → Triple
          (λ w. (k.committed w ≡ d) × (k.seen conn w ≡ v))
          (p.savepoint conn)
          (λ _ w. (k.committed w ≡ d) × (k.seen conn w ≡ v) × (sk.marked conn w ≡ some v))
          (λ _. Bad)
  pub release_and_savepoint_lem :
      (u v : Db App)
      → Triple
          (λ w. (k.committed w ≡ d) × (k.seen conn w ≡ v) × (sk.marked conn w ≡ some u))
          (p.release_and_savepoint conn)
          (λ _ w. (k.committed w ≡ d) × (k.seen conn w ≡ v) × (sk.marked conn w ≡ some v))
          (λ _. Bad)
  pub release_lem :
      (u v : Db App)
      → Triple
          (λ w. (k.committed w ≡ d) × (k.seen conn w ≡ v) × (sk.marked conn w ≡ some u))
          (p.release conn)
          (λ _ w. (k.committed w ≡ d) × (k.seen conn w ≡ v))
          (λ _. Bad)
  pub rollback_to_lem :
      (u v : Db App)
      → Triple
          (λ w. (k.committed w ≡ d) × (k.seen conn w ≡ v) × (sk.marked conn w ≡ some u))
          (p.rollback_to conn)
          (λ _ w. (k.committed w ≡ d) × (k.seen conn w ≡ u) × (sk.marked conn w ≡ some u))
          (λ _. Bad)
  pub unclaim_lem :
      (m : MessageId) (u v : Db App)
      → Triple
          (λ w. (k.committed w ≡ d) × (k.seen conn w ≡ v) × (sk.marked conn w ≡ some u))
          (p.unclaim conn c.id m)
          (λ _ w.
            (k.committed w ≡ d) × (k.seen conn w ≡ remove c.id m v) × (sk.marked conn w ≡ some u))
          (λ _. Bad)
  pub handler_lem :
      (m : MessageId) (v : Db App)
      → Triple
          (λ w. (k.committed w ≡ d) × (k.seen conn w ≡ v) × (sk.marked conn w ≡ some v))
          (handler conn m)
          (λ value w.
            (k.committed w ≡ d) × (sk.marked conn w ≡ some v) × Post m v value (k.seen conn w))
          (λ x w.
            (x ≡ none → Bad w)
            × (x ≢ none → (k.committed w ≡ d) × (sk.marked conn w ≡ some v) × Fail m))

module _ {W E App T : Type 0} (c : Consumer W E) (p : Savepoints c.store) (k : Contract c.store App)
    (sk : SavepointContract c.store p App k)
    (handler : c.store.Conn → MessageId → Io W (HandlerError E) T)
    (Post : MessageId → Db App → T → Db App → Type 0) (Fail : MessageId → Type 0)
    (hk : BatchHandlerContract c p k sk handler Post Fail) (conn : c.store.Conn) (d : Db App) where
  pub contract_steps : Steps c p k sk handler Post Fail conn d (λ w. k.committed w ≡ d)
  contract_steps = record {
    claim_many_lem = λ ids. claim_many_triple c k conn ids d d;
    savepoint_lem = sk.savepoint_lem conn d;
    release_and_savepoint_lem = sk.release_and_savepoint_lem conn d;
    release_lem = sk.release_lem conn d;
    rollback_to_lem = sk.rollback_to_lem conn d;
    unclaim_lem = λ m. sk.unclaim_lem conn c.id m d;
    handler_lem = λ m v.
        Triple-mono (hk.run_lem conn m d v) (λ w h. h) (λ a w h. h)
          (λ x w h. (λ e. h.0, λ ne. (h.0, (h.1 ne).0, (h.1 ne).1)));
  }

  -- The handler may fail, and stops only if it is `Faulty`.
  pub reliable_steps :
      (Faulty : Type 0)
      → Reliable c.store Faulty
      → ReliableSavepoints c.store p k sk Faulty
      → ((m : MessageId)
          → Triple (λ _. Unit {0}) (handler conn m) (λ _ _. Unit {0}) (λ x _. x ≡ none → Faulty))
      → Steps c p k sk handler Post Fail conn d (λ _. Faulty)
  reliable_steps Faulty f g back = record {
    claim_many_lem = λ ids. claim_many-Returns c k Faulty f conn ids d d;
    savepoint_lem = λ v. Triple-Returns (sk.savepoint_lem conn d v) (g.savepoint_lem conn);
    release_and_savepoint_lem = λ u v.
        Triple-Faulty (sk.release_and_savepoint_lem conn d u v) (λ w h. h.2)
          (g.release_and_savepoint_lem conn u);
    release_lem =
        λ u v. Triple-Faulty (sk.release_lem conn d u v) (λ w h. h.2) (g.release_lem conn u);
    rollback_to_lem = λ u v.
        Triple-Faulty (sk.rollback_to_lem conn d u v) (λ w h. h.2) (g.rollback_to_lem conn u);
    unclaim_lem = λ m u v.
        Triple-Faulty (sk.unclaim_lem conn c.id m d u v) (λ w h. h.2) (g.unclaim_lem conn c.id m u);
    handler_lem = λ m v.
        Triple-mono
          (Triple-and (hk.run_lem conn m d v)
            (Triple-mono (back m) (λ w h. tt) (λ a w h. h) (λ x w h. h)))
          (λ w h. h) (λ a w h. h.0) (λ x w h. (h.1, λ ne. (h.0.0, (h.0.1 ne).0, (h.0.1 ne).1)));
  }
