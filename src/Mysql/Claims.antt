-- ===== src/Mysql/Claims.antt =====
-- `MySqlInbox::claim`, over a MySQL that runs its statements as documented.
use txbox.Common.{ℕ, Option, none, some, ◌≡◌, refl, sym, subst, [], ◌∷◌, if◌then◌else◌, nat_eq}
use txbox.Error.{from_sqlx}
use txbox.Io.{pure, lift, attempt, map_err, ◌>>=◌}
use txbox.Io.Triple.{
  Triple, Gives, Triple-pure, Triple-throw, Triple-bind, Triple-attempt, Triple-mono, Triple-fact,
  Attempted,
}
use txbox.Mysql.{
  begin_sql, claim, claim_sql, claim_error, restore_lock_timeout, restore_lock_timeout_sql,
  set_lock_timeout, set_lock_timeout_sql, mysql_lock_timeout,
}
use txbox.Result.{Result, ok, err}
use txbox.Sql.{claim_of_affected}
use txbox.Sql.Laws.{Transactions, Triple-wrapped, affected-answer}
use txbox.Sqlx.{Bind, Driver}
use txbox.Store.Contract.{Db, answer, add}
use txbox.Types.{ClaimRequest, ConsumerId, Duration, MessageId}

-- A session has its lock timeout, and the value saved in `@txbox_lock_wait_timeout`. No statement of
-- the session but these two writes either.
pub record MysqlClaim {W E App : Type 0} (q : Driver W E)
    (t : Transactions q (q.begin_with begin_sql) App) : Type 0 where
  pub timeout : q.Conn → W → ℕ
  pub saved : q.Conn → W → Option ℕ
  -- SET, from left to right: the old value is saved, then the new one is set.
  pub set_lock_timeout_lem :
      (conn : q.Conn) (n before : ℕ) (d v : Db App)
      → Triple
          (λ w. (t.committed w ≡ d) × (t.seen conn w ≡ v) × (timeout conn w ≡ before))
          (q.execute conn set_lock_timeout_sql (Bind.number n ∷ []))
          (λ _ w.
            (t.committed w ≡ d)
            × (t.seen conn w ≡ v)
            × (timeout conn w ≡ n)
            × (saved conn w ≡ some before))
          (λ _ w. t.committed w ≡ d)
  pub restore_lock_timeout_lem :
      (conn : q.Conn) (before : ℕ) (d v : Db App)
      → Triple
          (λ w. (t.committed w ≡ d) × (t.seen conn w ≡ v) × (saved conn w ≡ some before))
          (q.raw_sql conn restore_lock_timeout_sql)
          (λ _ w. (t.committed w ≡ d) × (t.seen conn w ≡ v) × (timeout conn w ≡ before))
          (λ _ w. t.committed w ≡ d)
  -- However it ends, restoring commits nothing.
  pub restore_keeps :
      (conn : q.Conn) (d : Db App)
      → Triple
          (λ w. t.committed w ≡ d)
          (q.raw_sql conn restore_lock_timeout_sql)
          (λ _ w. t.committed w ≡ d)
          (λ _ w. t.committed w ≡ d)
  -- INSERT IGNORE: one row is affected, or none if the key is there.
  pub claim_lem :
      (conn : q.Conn) (c : ConsumerId) (m : MessageId) (now : ℕ) (before : Option ℕ) (d v : Db App)
      → Triple
          (λ w.
            (t.committed w ≡ d)
            × (t.seen conn w ≡ v)
            × (timeout conn w ≡ now)
            × (saved conn w ≡ before))
          (q.execute conn claim_sql (Bind.text c.as_str ∷ Bind.text m.as_str ∷ []))
          (λ affected w.
            ((t.committed w ≡ d)
              × (t.seen conn w ≡ add c m v)
              × (timeout conn w ≡ now)
              × (saved conn w ≡ before))
            × (affected ≡ (if v.row c m then 0 else 1)))
          (λ _ w. t.committed w ≡ d)

subst2 :
    {A B : Type 0} (P : A → B → Type 0) {a a' : A} {b b' : B} → a ≡ a' → b ≡ b' → P a b → P a' b'
subst2 P {a} {b'} p q h = subst (λ x. P x b') p (subst (P a) q h)

module _ {W E App : Type 0} (q : Driver W E) (t : Transactions q (q.begin_with begin_sql) App)
    (s : MysqlClaim q t) where
  -- Between setting and restoring: with a timeout, the session's own value is saved; without one,
  -- it is in force.
  Held : q.Conn → Option Duration → ℕ → ℕ → Option ℕ → Type 0
  Held conn none before now kept = now ≡ before
  Held conn (some timeout) before now kept = kept ≡ some before

  set_triple :
      (conn : q.Conn) (o : Option Duration) (before : ℕ) (d v : Db App)
      → Triple
          (λ w. (t.committed w ≡ d) × (t.seen conn w ≡ v) × (s.timeout conn w ≡ before))
          (set_lock_timeout q conn o)
          (λ _ w.
            (t.committed w ≡ d)
            × (t.seen conn w ≡ v)
            × Held conn o before (s.timeout conn w) (s.saved conn w))
          (λ _ w. t.committed w ≡ d)
  unfolding set_lock_timeout Held
  set_triple conn none before d v = Triple-pure tt (λ w h. h)
  set_triple conn (some timeout) before d v =
      Triple-bind (s.set_lock_timeout_lem conn (mysql_lock_timeout timeout) before d v)
        (λ _. Triple-pure tt (λ w h. (h.0, h.1, h.3)))

  restore_triple :
      (conn : q.Conn) (o : Option Duration) (before : ℕ) (d v : Db App)
      → Triple
          (λ w.
            (t.committed w ≡ d)
            × (t.seen conn w ≡ v)
            × Held conn o before (s.timeout conn w) (s.saved conn w))
          (restore_lock_timeout q conn o)
          (λ _ w. (t.committed w ≡ d) × (t.seen conn w ≡ v) × (s.timeout conn w ≡ before))
          (λ _ w. t.committed w ≡ d)
  unfolding restore_lock_timeout Held
  restore_triple conn none before d v = Triple-pure tt (λ w h. h)
  restore_triple conn (some timeout) before d v =
      Triple-bind (s.restore_lock_timeout_lem conn before d v) (λ _. Triple-pure tt (λ w h. h))

  restore_keeps_triple :
      (conn : q.Conn) (o : Option Duration) (d : Db App)
      → Triple
          (λ w. t.committed w ≡ d)
          (restore_lock_timeout q conn o)
          (λ _ w. t.committed w ≡ d)
          (λ _ w. t.committed w ≡ d)
  unfolding restore_lock_timeout
  restore_keeps_triple conn none d = Triple-pure tt (λ w h. h)
  restore_keeps_triple conn (some timeout) d =
      Triple-bind (s.restore_keeps conn d) (λ _. Triple-pure tt (λ w h. h))

  insert_triple :
      (conn : q.Conn) (r : ClaimRequest) (before : ℕ) (d v : Db App)
      → Triple
          (λ w.
            (t.committed w ≡ d)
            × (t.seen conn w ≡ v)
            × Held conn r.lock_timeout before (s.timeout conn w) (s.saved conn w))
          (q.execute conn claim_sql (Bind.text r.consumer.as_str ∷ Bind.text r.id.as_str ∷ []))
          (λ affected w.
            ((t.committed w ≡ d)
              × (t.seen conn w ≡ add r.consumer r.id v)
              × Held conn r.lock_timeout before (s.timeout conn w) (s.saved conn w))
            × (affected ≡ (if v.row r.consumer r.id then 0 else 1)))
          (λ _ w. t.committed w ≡ d)
  insert_triple conn r before d v = record {
    at = λ w h.
        let now = s.timeout conn w in
        let kept = s.saved conn w in
        let done =
          Triple-mono
            {Q' = λ affected w'.
              ((t.committed w' ≡ d)
                × (t.seen conn w' ≡ add r.consumer r.id v)
                × Held conn r.lock_timeout before (s.timeout conn w') (s.saved conn w'))
              × (affected ≡ (if v.row r.consumer r.id then 0 else 1))}
            (s.claim_lem conn r.consumer r.id now kept d v) (λ w' p. p)
            (λ affected w' p. (
              (p.0.0, p.0.1, subst2 (Held conn r.lock_timeout before) (sym p.0.2) (sym p.0.3) h.2),
              p.1,
            ))
            (λ x w' p. p) in
        done.at w (h.0, h.1, refl, refl);
  }

  -- After the statement: what it reported, then what restoring reported.
  answer_triple :
      (conn : q.Conn) (r : ClaimRequest) (before : ℕ) (d v : Db App) (result : Result E ℕ)
      → Triple
          (Attempted
            (λ affected w.
              ((t.committed w ≡ d)
                × (t.seen conn w ≡ add r.consumer r.id v)
                × Held conn r.lock_timeout before (s.timeout conn w) (s.saved conn w))
              × (affected ≡ (if v.row r.consumer r.id then 0 else 1)))
            (λ _ w. t.committed w ≡ d)
            result)
          (attempt (restore_lock_timeout q conn r.lock_timeout) >>= λ restored.
            map_err (claim_error q) (lift result) >>= λ affected.
            map_err from_sqlx (lift restored) >>= λ _. pure (claim_of_affected affected))
          (λ k w.
            (t.committed w ≡ d)
            × (t.seen conn w ≡ add r.consumer r.id v)
            × (k ≡ answer r.consumer v r.id)
            × (s.timeout conn w ≡ before))
          (λ _ w. t.committed w ≡ d)
  answer_triple conn r before d v (ok affected) =
      Triple-fact (λ w h. h.1)
        (λ reported.
          Triple-bind
            (Triple-attempt
              (Triple-mono (restore_triple conn r.lock_timeout before d (add r.consumer r.id v))
                (λ w h. h.0) (λ _ w h. h) (λ x w h. h))
              (λ w h. h))
            (elim [
              | ok _ ↦
                  Triple-pure (claim_of_affected affected)
                    (λ w h. (h.0, h.1, affected-answer r.consumer r.id v affected reported, h.2))
              | err e ↦ Triple-throw (from_sqlx e) (λ w h. h)
            ]))
  answer_triple conn r before d v (err e) =
      Triple-bind {Q = λ _ w. t.committed w ≡ d}
        (Triple-mono (Triple-attempt (restore_keeps_triple conn r.lock_timeout d) (λ w h. h))
          (λ w h. h) (elim [ ok _ ↦ λ w h. h | err _ ↦ λ w h. h ]) (λ x w h. h))
        (λ restored. Triple-throw (claim_error q e) (λ w h. h))

  pub claim_triple :
      (conn : q.Conn) (r : ClaimRequest) (before : ℕ) (d v : Db App)
      → Triple
          (λ w. (t.committed w ≡ d) × (t.seen conn w ≡ v) × (s.timeout conn w ≡ before))
          (claim q conn r)
          (λ k w.
            (t.committed w ≡ d)
            × (t.seen conn w ≡ add r.consumer r.id v)
            × (k ≡ answer r.consumer v r.id)
            × (s.timeout conn w ≡ before))
          (λ _ w. t.committed w ≡ d)
  unfolding claim
  claim_triple conn r before d v =
      Triple-bind (Triple-wrapped from_sqlx (set_triple conn r.lock_timeout before d v)) (λ _.
        Triple-bind (Triple-attempt (insert_triple conn r before d v) (λ w' h. h))
          (λ result. answer_triple conn r before d v result))

  -- Over a MySQL that runs its statements as documented, a claim, with or without a lock timeout,
  -- adds the message's row to what the connection sees, answers `Fresh` exactly if the row was not
  -- there, and leaves the session's own lock timeout in force; where it fails, nothing is committed.
  pub mysql_claim_lem :
      (conn : q.Conn) (r : ClaimRequest) (w : W)
      → Gives w
          (claim q conn r)
          (λ k w'.
            (t.committed w' ≡ t.committed w)
            × (t.seen conn w' ≡ add r.consumer r.id (t.seen conn w))
            × (k ≡ answer r.consumer (t.seen conn w) r.id)
            × (s.timeout conn w' ≡ s.timeout conn w))
          (λ _ w'. t.committed w' ≡ t.committed w)
  mysql_claim_lem conn r w =
      (claim_triple conn r (s.timeout conn w) (t.committed w) (t.seen conn w)).at w
        (refl, refl, refl)
