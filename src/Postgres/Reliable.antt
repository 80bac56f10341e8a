-- ===== src/Postgres/Reliable.antt =====
-- The PostgreSQL backend returns where sqlx does.
use txbox.Common.{ℕ, Option, none, some}
use txbox.Io.Triple.{Triple-pure, Triple-bind}
use txbox.Postgres.{pg_inbox, claim, claim_many, set_lock_timeout}
use txbox.Sqlx.{Driver}
use txbox.Sqlx.Reliable.{ReliableDriver, Returns-map_err}
use txbox.Store.Reliable.{Returns, Reliable}
use txbox.Types.{ClaimBatch, ClaimRequest, Duration}

module _ {W E : Type 0} (q : Driver W E) (Faulty : Type 0) (f : ReliableDriver q Faulty) where
  set_lock_timeout-Returns :
      (conn : q.Conn) (timeout : Option Duration) → Returns Faulty (set_lock_timeout q conn timeout)
  unfolding set_lock_timeout
  set_lock_timeout-Returns conn none = Triple-pure tt (λ w h. h)
  set_lock_timeout-Returns conn (some timeout) =
      Triple-bind (f.execute_lem conn _ _) (λ affected. Triple-pure tt (λ w h. h))

  claim-Returns : (conn : q.Conn) (r : ClaimRequest) → Returns Faulty (claim q conn r)
  unfolding claim
  claim-Returns conn r =
      Triple-bind (Returns-map_err _ (set_lock_timeout-Returns conn r.lock_timeout)) (λ _.
        Triple-bind (Returns-map_err _ (f.execute_lem conn _ _))
          (λ affected. Triple-pure _ (λ w h. h)))

  claim_many-Returns : (conn : q.Conn) (b : ClaimBatch) → Returns Faulty (claim_many q conn b)
  unfolding claim_many
  claim_many-Returns conn b =
      Triple-bind (Returns-map_err _ (set_lock_timeout-Returns conn b.lock_timeout)) (λ _.
        Triple-bind (Returns-map_err _ (f.fetch_all_lem conn _ _))
          (λ fresh. Triple-pure _ (λ w h. h)))

  pub pg-Reliable : (fuel : ℕ) → Reliable (pg_inbox q fuel) Faulty
  pg-Reliable fuel = record {
    begin_lem = Returns-map_err _ f.begin_lem;
    commit_lem = λ tx. Returns-map_err _ (f.commit_lem tx);
    rollback_lem = λ tx. Returns-map_err _ (f.rollback_lem tx);
    claim_lem = claim-Returns;
    claim_many_lem = claim_many-Returns;
  }
