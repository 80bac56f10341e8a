-- ===== src/Mysql/Refines.antt =====
-- Over a MySQL that runs its statements as documented, the backend keeps the contracts of the traits.
use txbox.Common.{ℕ, some, ◌≡◌, [], ◌∷◌}
use txbox.Error.{from_sqlx}
use txbox.Io.Triple.{Triple, Triple-pure, Triple-bind, Triple-fix, Triple-mono}
use txbox.Mysql.{mysql_inbox, mysql_savepoints, begin_sql, unclaim, unclaim_sql}
use txbox.Mysql.Batch.{MysqlBatch, claim_many_triple}
use txbox.Mysql.Claims.{MysqlClaim, claim_triple}
use txbox.Sql.Laws.{Transactions, Triple-wrapped, execute_triple}
use txbox.Sqlx.{Bind, Driver}
use txbox.Store.Contract.{Contract, SavepointContract, Db, remove}
use txbox.Types.{ConsumerId, MessageId}

-- DELETE on the table's key.
pub record MysqlUnclaim {W E App : Type 0} (q : Driver W E)
    (t : Transactions q (q.begin_with begin_sql) App) : Type 0 where
  pub unclaim_lem :
      (conn : q.Conn) (c : ConsumerId) (m : MessageId) (d u v : Db App)
      → Triple
          (λ w. (t.committed w ≡ d) × (t.seen conn w ≡ v) × (t.marked conn w ≡ some u))
          (q.execute conn unclaim_sql (Bind.text c.as_str ∷ Bind.text m.as_str ∷ []))
          (λ _ w. (t.committed w ≡ d) × (t.seen conn w ≡ remove c m v) × (t.marked conn w ≡ some u))
          (λ _ w. t.committed w ≡ d)

module _ {W E App : Type 0} (q : Driver W E) (t : Transactions q (q.begin_with begin_sql) App)
    (s : MysqlClaim q t) (b : MysqlBatch q t) (fuel : ℕ) where
  -- `MySqlInbox` keeps the contract of `InboxStore`.
  abbrev pub mysql_contract : Contract (mysql_inbox q fuel) App
  mysql_contract = record {
    committed = t.committed;
    seen = t.seen;
    begin_lem = λ d. Triple-wrapped from_sqlx (t.begin_lem d);
    commit_lem = λ tx d v. Triple-wrapped from_sqlx (t.commit_lem tx d v);
    rollback_lem = λ tx d. Triple-wrapped from_sqlx (t.rollback_lem tx d);
    drop_lem = t.drop_lem;
    claim_lem = λ conn r d v. Triple-fix (s.timeout conn) (λ before.
        Triple-mono (claim_triple q t s conn r before d v) (λ w h. (h.0.0, h.0.1, h.1))
          (λ k w h. (h.0, h.1, h.2)) (λ x w h. h));
    claim_many_lem = λ conn c d v _. claim_many_triple q t b conn c d v;
  }

  module _ (u : MysqlUnclaim q t) where
    pub unclaim_triple :
        (conn : q.Conn) (c : ConsumerId) (m : MessageId) (d o v : Db App)
        → Triple
            (λ w. (t.committed w ≡ d) × (t.seen conn w ≡ v) × (t.marked conn w ≡ some o))
            (unclaim q conn c m)
            (λ _ w.
              (t.committed w ≡ d) × (t.seen conn w ≡ remove c m v) × (t.marked conn w ≡ some o))
            (λ _ w. t.committed w ≡ d)
    unfolding unclaim
    unclaim_triple conn c m d o v =
        Triple-wrapped from_sqlx
          (Triple-bind (u.unclaim_lem conn c m d o v) (λ _. Triple-pure tt (λ w h. h)))

    -- `MySqlInbox` keeps the contract of `Savepoints`.
    abbrev pub mysql_savepoint_contract :
        SavepointContract (mysql_inbox q fuel) (mysql_savepoints q fuel) App mysql_contract
    mysql_savepoint_contract = record {
      marked = t.marked;
      savepoint_lem = λ c d v. execute_triple q (t.savepoint_lem c d v);
      release_and_savepoint_lem = λ c d o v. execute_triple q (t.release_and_savepoint_lem c d o v);
      release_lem = λ c d o v. execute_triple q (t.release_lem c d o v);
      rollback_to_lem = λ c d o v. execute_triple q (t.rollback_to_lem c d o v);
      unclaim_lem = unclaim_triple;
    }
