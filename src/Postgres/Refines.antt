-- ===== src/Postgres/Refines.antt =====
-- Over a PostgreSQL that runs its statements as documented, the backend keeps the contract of the
-- trait.
use txbox.Common.{ℕ, Option, none, some, List, ◌≡◌, refl, [], ◌∷◌, map, if◌then◌else◌, nat_eq}
use txbox.Error.{from_sqlx}
use txbox.Io.Triple.{Triple, Gives, Triple-pure, Triple-bind}
use txbox.Sql.{claim_of_affected, claims_from_fresh}
use txbox.Sql.Laws.{
  Transactions, ReportsFresh, Triple-wrapped, execute_triple, claims_from_fresh-answer,
  affected-answer,
}
use txbox.Postgres.{
  pg_inbox, pg_savepoints, claim, claim_many, unclaim, claim_sql, claim_many_sql, unclaim_sql,
  claim_error, set_lock_timeout, set_lock_timeout_sql, pg_lock_timeout,
}
use txbox.Sqlx.{Bind, Driver}
use txbox.Store.Contract.{Contract, SavepointContract, Db, answer, add, add_all, remove}
use txbox.Str.{Str}
use txbox.Types.{Duration, ClaimBatch, ClaimRequest, ConsumerId, MessageId}

-- The statements of src/postgres.rs, as PostgreSQL documents them.
pub record PgStatements {W E App : Type 0} (q : Driver W E) (t : Transactions q q.begin App)
    : Type 0 where
  -- `set_config` changes a setting, and no contents.
  pub set_lock_timeout_lem :
      (conn : q.Conn) (value : Str) (d v : Db App)
      → Triple
          (λ w. (t.committed w ≡ d) × (t.seen conn w ≡ v))
          (q.execute conn set_lock_timeout_sql (Bind.text value ∷ []))
          (λ _ w. (t.committed w ≡ d) × (t.seen conn w ≡ v))
          (λ _ w. t.committed w ≡ d)
  -- INSERT ... ON CONFLICT DO NOTHING: one row is affected, or none if the key is there.
  pub claim_lem :
      (conn : q.Conn) (c : ConsumerId) (m : MessageId) (d v : Db App)
      → Triple
          (λ w. (t.committed w ≡ d) × (t.seen conn w ≡ v))
          (q.execute conn claim_sql (Bind.text c.as_str ∷ Bind.text m.as_str ∷ []))
          (λ affected w.
            (t.committed w ≡ d)
            × (t.seen conn w ≡ add c m v)
            × (affected ≡ (if v.row c m then 0 else 1)))
          (λ _ w. t.committed w ≡ d)
  -- RETURNING gives the rows that were inserted.
  pub claim_many_lem :
      (conn : q.Conn) (c : ConsumerId) (ids : List MessageId) (d v : Db App)
      → Triple
          (λ w. (t.committed w ≡ d) × (t.seen conn w ≡ v))
          (q.fetch_all conn claim_many_sql
            (Bind.text c.as_str ∷ Bind.array (map (λ (m : MessageId). m.as_str) ids) ∷ []))
          (λ fresh w.
            (t.committed w ≡ d) × (t.seen conn w ≡ add_all c ids v) × ReportsFresh c v ids fresh)
          (λ _ w. t.committed w ≡ d)
  pub unclaim_lem :
      (conn : q.Conn) (c : ConsumerId) (m : MessageId) (d u v : Db App)
      → Triple
          (λ w. (t.committed w ≡ d) × (t.seen conn w ≡ v) × (t.marked conn w ≡ some u))
          (q.execute conn unclaim_sql (Bind.text c.as_str ∷ Bind.text m.as_str ∷ []))
          (λ _ w. (t.committed w ≡ d) × (t.seen conn w ≡ remove c m v) × (t.marked conn w ≡ some u))
          (λ _ w. t.committed w ≡ d)

module _ {W E App : Type 0} (q : Driver W E) (t : Transactions q q.begin App) (s : PgStatements q t)
    (fuel : ℕ) where
  timeout_triple :
      (conn : q.Conn) (timeout : Option Duration) (d v : Db App)
      → Triple
          (λ w. (t.committed w ≡ d) × (t.seen conn w ≡ v))
          (set_lock_timeout q conn timeout)
          (λ _ w. (t.committed w ≡ d) × (t.seen conn w ≡ v))
          (λ _ w. t.committed w ≡ d)
  unfolding set_lock_timeout
  timeout_triple conn none d v = Triple-pure tt (λ w h. h)
  timeout_triple conn (some timeout) d v =
      Triple-bind (s.set_lock_timeout_lem conn (pg_lock_timeout timeout) d v)
        (λ _. Triple-pure tt (λ w h. h))

  pub claim_triple :
      (conn : q.Conn) (r : ClaimRequest) (d v : Db App)
      → Triple
          (λ w. (t.committed w ≡ d) × (t.seen conn w ≡ v))
          (claim q conn r)
          (λ k w.
            (t.committed w ≡ d)
            × (t.seen conn w ≡ add r.consumer r.id v)
            × (k ≡ answer r.consumer v r.id))
          (λ _ w. t.committed w ≡ d)
  unfolding claim
  claim_triple conn r d v =
      Triple-bind (Triple-wrapped from_sqlx (timeout_triple conn r.lock_timeout d v)) (λ _.
        Triple-bind (Triple-wrapped (claim_error q) (s.claim_lem conn r.consumer r.id d v))
          (λ affected.
            Triple-pure (claim_of_affected affected)
              (λ w p. (p.0, p.1, affected-answer r.consumer r.id v affected p.2))))

  pub claim_many_triple :
      (conn : q.Conn) (b : ClaimBatch) (d v : Db App)
      → Triple
          (λ w. (t.committed w ≡ d) × (t.seen conn w ≡ v))
          (claim_many q conn b)
          (λ ks w.
            (t.committed w ≡ d)
            × (t.seen conn w ≡ add_all b.consumer b.ids v)
            × (ks ≡ map (answer b.consumer v) b.ids))
          (λ _ w. t.committed w ≡ d)
  unfolding claim_many
  claim_many_triple conn b d v =
      Triple-bind (Triple-wrapped from_sqlx (timeout_triple conn b.lock_timeout d v)) (λ _.
        Triple-bind (Triple-wrapped (claim_error q) (s.claim_many_lem conn b.consumer b.ids d v))
          (λ fresh.
            Triple-pure (claims_from_fresh (map (λ (m : MessageId). m.as_str) b.ids) fresh)
              (λ w p. (p.0, p.1, claims_from_fresh-answer b.consumer v b.ids fresh p.2))))

  pub unclaim_triple :
      (conn : q.Conn) (c : ConsumerId) (m : MessageId) (d u v : Db App)
      → Triple
          (λ w. (t.committed w ≡ d) × (t.seen conn w ≡ v) × (t.marked conn w ≡ some u))
          (unclaim q conn c m)
          (λ _ w. (t.committed w ≡ d) × (t.seen conn w ≡ remove c m v) × (t.marked conn w ≡ some u))
          (λ _ w. t.committed w ≡ d)
  unfolding unclaim
  unclaim_triple conn c m d u v =
      Triple-wrapped from_sqlx
        (Triple-bind (s.unclaim_lem conn c m d u v) (λ _. Triple-pure tt (λ w h. h)))

  -- `PgInbox` keeps the contract of `InboxStore`.
  abbrev pub pg_contract : Contract (pg_inbox q fuel) App
  pg_contract = record {
    committed = t.committed;
    seen = t.seen;
    begin_lem = λ d. Triple-wrapped from_sqlx (t.begin_lem d);
    commit_lem = λ tx d v. Triple-wrapped from_sqlx (t.commit_lem tx d v);
    rollback_lem = λ tx d. Triple-wrapped from_sqlx (t.rollback_lem tx d);
    drop_lem = t.drop_lem;
    claim_lem = claim_triple;
    claim_many_lem = λ conn b d v _. claim_many_triple conn b d v;
  }

  -- `PgInbox` keeps the contract of `Savepoints`.
  abbrev pub pg_savepoint_contract :
      SavepointContract (pg_inbox q fuel) (pg_savepoints q fuel) App pg_contract
  pg_savepoint_contract = record {
    marked = t.marked;
    savepoint_lem = λ c d v. execute_triple q (t.savepoint_lem c d v);
    release_and_savepoint_lem = λ c d u v. execute_triple q (t.release_and_savepoint_lem c d u v);
    release_lem = λ c d u v. execute_triple q (t.release_lem c d u v);
    rollback_to_lem = λ c d u v. execute_triple q (t.rollback_to_lem c d u v);
    unclaim_lem = unclaim_triple;
  }

  -- Over a PostgreSQL that runs its statements as documented, a claim adds the message's row to what
  -- the connection sees, and answers `Fresh` exactly if the row was not there; it changes nothing
  -- that is committed, also where it fails.
  pub pg_claim_lem :
      (conn : q.Conn) (r : ClaimRequest) (w : W)
      → Gives w
          (claim q conn r)
          (λ k w'.
            (t.committed w' ≡ t.committed w)
            × (t.seen conn w' ≡ add r.consumer r.id (t.seen conn w))
            × (k ≡ answer r.consumer (t.seen conn w) r.id))
          (λ _ w'. t.committed w' ≡ t.committed w)
  pg_claim_lem conn r w = (claim_triple conn r (t.committed w) (t.seen conn w)).at w (refl, refl)

  -- Over a PostgreSQL that runs its statements as documented, a batch claimed adds the rows of all
  -- its messages to what the connection sees, and answers, in order, `Fresh` for the messages that
  -- had none before the statement; it changes nothing that is committed, also where it fails.
  pub pg_claim_many_lem :
      (conn : q.Conn) (b : ClaimBatch) (w : W)
      → Gives w
          (claim_many q conn b)
          (λ ks w'.
            (t.committed w' ≡ t.committed w)
            × (t.seen conn w' ≡ add_all b.consumer b.ids (t.seen conn w))
            × (ks ≡ map (answer b.consumer (t.seen conn w)) b.ids))
          (λ _ w'. t.committed w' ≡ t.committed w)
  pg_claim_many_lem conn b w =
      (claim_many_triple conn b (t.committed w) (t.seen conn w)).at w (refl, refl)
