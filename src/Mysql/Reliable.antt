-- ===== src/Mysql/Reliable.antt =====
-- The MySQL backend returns where sqlx does.
use txbox.Common.{ℕ, Option, none, some}
use txbox.Error.{InboxError}
use txbox.Io.{Io, attempt, ◌>>=◌}
use txbox.Io.Triple.{Triple-pure, Triple-bind, Triple-attempt, Triple-fact, Triple-mono}
use txbox.Mysql.{
  mysql_inbox, begin_sql, restore_lock_timeout_sql, claim, claim_many, set_lock_timeout,
  restore_lock_timeout,
}
use txbox.Result.{Result, ok, err}
use txbox.Sqlx.{Driver}
use txbox.Sqlx.Reliable.{ReliableDriver, Returns-map_err, Returns-faulty}
use txbox.Store.Reliable.{Returns, Reliable}
use txbox.Types.{ClaimBatch, ClaimRequest, Duration}

-- The calls that only this backend makes.
pub record ReliableMysql {W E : Type 0} (q : Driver W E) (Faulty : Type 0) : Type 0 where
  pub begin_with_lem : Returns Faulty (q.begin_with begin_sql)
  pub restore_lem : (conn : q.Conn) → Returns Faulty (q.raw_sql conn restore_lock_timeout_sql)
  pub random_lem : Returns Faulty q.random

module _ {W E : Type 0} (q : Driver W E) (Faulty : Type 0) (f : ReliableDriver q Faulty)
    (g : ReliableMysql q Faulty) where
  set_lock_timeout-Returns :
      (conn : q.Conn) (timeout : Option Duration) → Returns Faulty (set_lock_timeout q conn timeout)
  unfolding set_lock_timeout
  set_lock_timeout-Returns conn none = Triple-pure tt (λ w h. h)
  set_lock_timeout-Returns conn (some timeout) =
      Triple-bind (f.execute_lem conn _ _) (λ affected. Triple-pure tt (λ w h. h))

  restore_lock_timeout-Returns :
      (conn : q.Conn) (timeout : Option Duration)
      → Returns Faulty (restore_lock_timeout q conn timeout)
  unfolding restore_lock_timeout
  restore_lock_timeout-Returns conn none = Triple-pure tt (λ w h. h)
  restore_lock_timeout-Returns conn (some timeout) =
      Triple-bind (g.restore_lem conn) (λ affected. Triple-pure tt (λ w h. h))

  -- A call of which the result is looked at, and what follows where it returned.
  attempted :
      {A B : Type 0} {m : Io W E A} (next : Result E A → Io W (InboxError E) B)
      → Returns Faulty m
      → ((a : A) → Returns Faulty (next (ok a)))
      → Returns Faulty (attempt m >>= next)
  attempted next t u = Triple-bind (Triple-attempt t (λ w h. h)) (elim [
    | ok a ↦ u a
    | err e ↦
        Triple-fact (λ w h. h)
          (λ x. Triple-mono (Returns-faulty (next (err e)) x) (λ w h. tt) (λ a w h. h) (λ x w h. h))
  ])

  claim-Returns : (conn : q.Conn) (r : ClaimRequest) → Returns Faulty (claim q conn r)
  unfolding claim
  claim-Returns conn r =
      Triple-bind (Returns-map_err _ (set_lock_timeout-Returns conn r.lock_timeout)) (λ _.
        attempted _ (f.execute_lem conn _ _) (λ affected.
          attempted _ (restore_lock_timeout-Returns conn r.lock_timeout)
            (λ _. Triple-pure _ (λ w h. h))))

  claim_many-Returns : (conn : q.Conn) (b : ClaimBatch) → Returns Faulty (claim_many q conn b)
  unfolding claim_many
  claim_many-Returns conn b = Triple-bind (Returns-map_err _ g.random_lem) (λ token.
      Triple-bind (Returns-map_err _ (set_lock_timeout-Returns conn b.lock_timeout)) (λ _.
        attempted _ (f.execute_lem conn _ _) (λ affected.
          attempted _ (restore_lock_timeout-Returns conn b.lock_timeout) (λ _.
            Triple-bind (Returns-map_err _ (f.fetch_all_lem conn _ _))
              (λ fresh. Triple-pure _ (λ w h. h))))))

  pub mysql-Reliable : (fuel : ℕ) → Reliable (mysql_inbox q fuel) Faulty
  mysql-Reliable fuel = record {
    begin_lem = Returns-map_err _ g.begin_with_lem;
    commit_lem = λ tx. Returns-map_err _ (f.commit_lem tx);
    rollback_lem = λ tx. Returns-map_err _ (f.rollback_lem tx);
    claim_lem = claim-Returns;
    claim_many_lem = claim_many-Returns;
  }
