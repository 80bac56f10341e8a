-- ===== src/Mysql/Restores.antt =====
-- `MySqlInbox::claim` and `claim_many` with a lock timeout of their own: the session's is put back
-- however the call ends.
use txbox.Common.{ℕ, ◌≡◌, ◌≢◌, ◌⊎◌, refl, Option, none, map}
use txbox.Io.{pure}
use txbox.Io.Triple.{Triple, Gives, Triple-pure, Triple-bind}
use txbox.Mysql.{claim, claim_many}
use txbox.Sql.{claim_of_affected, claims_from_fresh}
use txbox.Sqlx.{Driver}
use txbox.Types.{ClaimBatch, ClaimRequest, MessageId}
use txbox.Mysql.Brackets.{LockTimeouts, Kept, spared, bracketed}

module _ {W E : Type 0} (q : Driver W E) (timeout : q.Conn → W → ℕ) (saved : q.Conn → W → Option ℕ)
    (Broken : Type 0) (law : LockTimeouts q timeout saved Broken) where
  claim-Kept :
      (conn : q.Conn) (r : ClaimRequest) (t : ℕ)
      → Triple
          (λ w. timeout conn w ≡ t)
          (claim q conn r)
          (λ _ w. timeout conn w ≡ t)
          (Kept q timeout saved Broken law conn t)
  unfolding claim
  claim-Kept conn r t =
      bracketed q timeout saved Broken law conn r.lock_timeout t
        (λ affected. pure (claim_of_affected affected)) (law.insert_lem conn r.consumer r.id)
        (λ n. Triple-pure _ (λ w h. h))

  claim_many-Kept :
      (conn : q.Conn) (b : ClaimBatch) (t : ℕ)
      → Triple
          (λ w. timeout conn w ≡ t)
          (claim_many q conn b)
          (λ _ w. timeout conn w ≡ t)
          (Kept q timeout saved Broken law conn t)
  unfolding claim_many
  claim_many-Kept conn b t =
      let ids = map (λ (m : MessageId). m.as_str) b.ids in
      Triple-bind (spared q timeout saved Broken law conn t (law.random_lem conn)) (λ token.
        bracketed q timeout saved Broken law conn b.lock_timeout t _
          (law.batch_lem conn b.consumer token ids)
          (λ _.
            Triple-bind
              (spared q timeout saved Broken law conn t (law.fetch_lem conn b.consumer token ids))
              (λ fresh. Triple-pure (claims_from_fresh ids fresh) (λ w h. h))))

  -- Over a MySQL whose statements do what they say, `MySqlInbox::claim` leaves the session's own lock
  -- timeout in force when it returns, and also when it fails, whether because of the statement that
  -- sets the claim's timeout or of the insert, unless the statement that restores it did not return.
  -- Nothing is said of a call that stops before its end.
  pub mysql_claim-restores :
      (conn : q.Conn) (r : ClaimRequest) (w : W)
      → Gives w
          (claim q conn r)
          (λ _ w'. timeout conn w' ≡ timeout conn w)
          (λ x w'. (x ≢ none → timeout conn w' ≡ timeout conn w) ⊎ Broken)
  mysql_claim-restores conn r w = (claim-Kept conn r (timeout conn w)).at w refl

  -- Over a MySQL whose statements do what they say, `MySqlInbox::claim_many` leaves the session's own
  -- lock timeout in force when it returns, and also when it fails, whether because of the token, of
  -- the statement that sets the batch's timeout, of the insert or of the query that reads the answers
  -- back, unless the statement that restores it did not return. Nothing is said of a call that stops
  -- before its end.
  pub mysql_claim_many-restores :
      (conn : q.Conn) (b : ClaimBatch) (w : W)
      → Gives w
          (claim_many q conn b)
          (λ _ w'. timeout conn w' ≡ timeout conn w)
          (λ x w'. (x ≢ none → timeout conn w' ≡ timeout conn w) ⊎ Broken)
  mysql_claim_many-restores conn b w = (claim_many-Kept conn b (timeout conn w)).at w refl
