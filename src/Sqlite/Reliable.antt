-- ===== src/Sqlite/Reliable.antt =====
-- The SQLite backend returns where sqlx does.
use txbox.Common.{ℕ}
use txbox.Io.Triple.{Triple-pure, Triple-bind}
use txbox.Sqlite.{sqlite_inbox, claim, claim_many}
use txbox.Sqlx.{Driver}
use txbox.Sqlx.Reliable.{ReliableDriver, Returns-map_err}
use txbox.Store.Reliable.{Returns, Reliable}
use txbox.Types.{ClaimBatch, ClaimRequest}

module _ {W E : Type 0} (q : Driver W E) (Faulty : Type 0) (f : ReliableDriver q Faulty) where
  claim-Returns : (conn : q.Conn) (r : ClaimRequest) → Returns Faulty (claim q conn r)
  unfolding claim
  claim-Returns conn r = record {
    at = λ w.
        (Triple-bind (Returns-map_err _ (f.execute_lem conn _ _))
            (λ affected. Triple-pure _ (λ w h. h))).at
          w;
  }

  claim_many-Returns : (conn : q.Conn) (b : ClaimBatch) → Returns Faulty (claim_many q conn b)
  unfolding claim_many
  claim_many-Returns conn b = record {
    at = λ w.
        (Triple-bind (Returns-map_err _ (f.fetch_all_lem conn _ _))
            (λ fresh. Triple-pure _ (λ w h. h))).at
          w;
  }

  pub sqlite-Reliable : (fuel : ℕ) → Reliable (sqlite_inbox q fuel) Faulty
  sqlite-Reliable fuel = record {
    begin_lem = Returns-map_err _ f.begin_lem;
    commit_lem = λ tx. Returns-map_err _ (f.commit_lem tx);
    rollback_lem = λ tx. Returns-map_err _ (f.rollback_lem tx);
    claim_lem = claim-Returns;
    claim_many_lem = claim_many-Returns;
  }
