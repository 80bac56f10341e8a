-- ===== src/Mysql/Batch.antt =====
-- `MySqlInbox::claim_many`, over a MySQL that runs its statements as documented, and tokens that do
-- not repeat.
use txbox.Common.{
  ℕ, Bool, false, true, not, ◌&&◌, Option, none, some, ◌≡◌, refl, [], ◌∷◌, List, map, arith,
  contains, ◌==◌,
}
use txbox.Consumer.Answers.{All-of_contains}
use txbox.Error.{from_sqlx}
use txbox.Io.{pure, lift, attempt, map_err, ◌>>=◌}
use txbox.Io.Triple.{
  Triple, Gives, Triple-pure, Triple-throw, Triple-bind, Triple-attempt, Triple-mono, Attempted,
}
use txbox.Mysql.{
  begin_sql, claim_many, claim_many_sql, claimed_by_token_sql, claim_error, restore_lock_timeout,
  restore_lock_timeout_sql, set_lock_timeout, set_lock_timeout_sql, mysql_lock_timeout,
}
use txbox.Result.{Result, ok, err}
use txbox.Sql.{claims_from_fresh}
use txbox.Sql.Laws.{Transactions, Triple-wrapped, claims_from_fresh-answer}
use txbox.Sqlx.{Bind, Driver}
use txbox.Store.Contract.{Db, answer, add_all}
use txbox.Str.{str_eq}
use txbox.Types.{
  ClaimBatch, ConsumerId, Duration, MessageId, consumer_id_eq, consumer_id_beq_iff, message_id_eq,
}

-- The rows of a batch that its statement inserts.
abbrev pub fresh_rows :
    {App : Type 0} → ConsumerId → List MessageId → Db App → ConsumerId → MessageId → Bool
fresh_rows c ids v k m = k == c && (contains ids m && not (v.row c m))

-- `stamp` tells which rows that the connection sees carry a token.
pub record MysqlBatch {W E App : Type 0} (q : Driver W E)
    (t : Transactions q (q.begin_with begin_sql) App) : Type 0 where
  pub stamp : q.Conn → ℕ → W → ConsumerId → MessageId → Bool
  -- A random token is one that no row carries.
  pub random_lem :
      (conn : q.Conn) (d v : Db App)
      → Triple
          (λ w. (t.committed w ≡ d) × (t.seen conn w ≡ v))
          q.random
          (λ token w.
            (t.committed w ≡ d) × (t.seen conn w ≡ v) × (stamp conn token w ≡ (λ k m. false)))
          (λ _ w. t.committed w ≡ d)
  -- SET changes the session, and no contents.
  pub set_lock_timeout_lem :
      (conn : q.Conn) (n token : ℕ) (d v : Db App) (b : ConsumerId → MessageId → Bool)
      → Triple
          (λ w. (t.committed w ≡ d) × (t.seen conn w ≡ v) × (stamp conn token w ≡ b))
          (q.execute conn set_lock_timeout_sql (Bind.number n ∷ []))
          (λ _ w. (t.committed w ≡ d) × (t.seen conn w ≡ v) × (stamp conn token w ≡ b))
          (λ _ w. t.committed w ≡ d)
  pub restore_lock_timeout_lem :
      (conn : q.Conn) (token : ℕ) (d v : Db App) (b : ConsumerId → MessageId → Bool)
      → Triple
          (λ w. (t.committed w ≡ d) × (t.seen conn w ≡ v) × (stamp conn token w ≡ b))
          (q.raw_sql conn restore_lock_timeout_sql)
          (λ _ w. (t.committed w ≡ d) × (t.seen conn w ≡ v) × (stamp conn token w ≡ b))
          (λ _ w. t.committed w ≡ d)
  pub restore_keeps :
      (conn : q.Conn) (d : Db App)
      → Triple
          (λ w. t.committed w ≡ d)
          (q.raw_sql conn restore_lock_timeout_sql)
          (λ _ w. t.committed w ≡ d)
          (λ _ w. t.committed w ≡ d)
  -- The rows that are inserted are stamped; a row that is there keeps its stamp.
  pub claim_many_lem :
      (conn : q.Conn) (c : ConsumerId) (ids : List MessageId) (token : ℕ) (d v : Db App)
      → Triple
          (λ w. (t.committed w ≡ d) × (t.seen conn w ≡ v) × (stamp conn token w ≡ (λ k m. false)))
          (q.execute conn claim_many_sql (
            Bind.text c.as_str
            ∷ Bind.number token
            ∷ Bind.json (map (λ (m : MessageId). m.as_str) ids)
            ∷ []))
          (λ _ w.
            (t.committed w ≡ d)
            × (t.seen conn w ≡ add_all c ids v)
            × (stamp conn token w ≡ fresh_rows c ids v))
          (λ _ w. t.committed w ≡ d)
  pub claimed_by_token_lem :
      (conn : q.Conn) (c : ConsumerId) (ids : List MessageId) (token : ℕ) (d v : Db App)
      (b : ConsumerId → MessageId → Bool)
      → Triple
          (λ w. (t.committed w ≡ d) × (t.seen conn w ≡ v) × (stamp conn token w ≡ b))
          (q.fetch_all conn claimed_by_token_sql (
            Bind.json (map (λ (m : MessageId). m.as_str) ids)
            ∷ Bind.text c.as_str
            ∷ Bind.number token
            ∷ []))
          (λ fresh w.
            (t.committed w ≡ d)
            × (t.seen conn w ≡ v)
            × ((j : MessageId) → contains ids j ≡ true → contains fresh j.as_str ≡ b c j))
          (λ _ w. t.committed w ≡ d)

module _ {W E App : Type 0} (q : Driver W E) (t : Transactions q (q.begin_with begin_sql) App)
    (s : MysqlBatch q t) where
  set_triple :
      (conn : q.Conn) (o : Option Duration) (token : ℕ) (d v : Db App)
      (b : ConsumerId → MessageId → Bool)
      → Triple
          (λ w. (t.committed w ≡ d) × (t.seen conn w ≡ v) × (s.stamp conn token w ≡ b))
          (set_lock_timeout q conn o)
          (λ _ w. (t.committed w ≡ d) × (t.seen conn w ≡ v) × (s.stamp conn token w ≡ b))
          (λ _ w. t.committed w ≡ d)
  unfolding set_lock_timeout
  set_triple conn none token d v b = Triple-pure tt (λ w h. h)
  set_triple conn (some timeout) token d v b =
      Triple-bind (s.set_lock_timeout_lem conn (mysql_lock_timeout timeout) token d v b)
        (λ _. Triple-pure tt (λ w h. h))

  restore_triple :
      (conn : q.Conn) (o : Option Duration) (token : ℕ) (d v : Db App)
      (b : ConsumerId → MessageId → Bool)
      → Triple
          (λ w. (t.committed w ≡ d) × (t.seen conn w ≡ v) × (s.stamp conn token w ≡ b))
          (restore_lock_timeout q conn o)
          (λ _ w. (t.committed w ≡ d) × (t.seen conn w ≡ v) × (s.stamp conn token w ≡ b))
          (λ _ w. t.committed w ≡ d)
  unfolding restore_lock_timeout
  restore_triple conn none token d v b = Triple-pure tt (λ w h. h)
  restore_triple conn (some timeout) token d v b =
      Triple-bind (s.restore_lock_timeout_lem conn token d v b) (λ _. Triple-pure tt (λ w h. h))

  restore_keeps_triple :
      (conn : q.Conn) (o : Option Duration) (d : Db App)
      → Triple
          (λ w. t.committed w ≡ d)
          (restore_lock_timeout q conn o)
          (λ _ w. t.committed w ≡ d)
          (λ _ w. t.committed w ≡ d)
  unfolding restore_lock_timeout
  restore_keeps_triple conn none d = Triple-pure tt (λ w h. h)
  restore_keeps_triple conn (some timeout) d =
      Triple-bind (s.restore_keeps conn d) (λ _. Triple-pure tt (λ w h. h))

  fetch_triple :
      (conn : q.Conn) (b : ClaimBatch) (token : ℕ) (d v : Db App)
      → Triple
          (λ w.
            (t.committed w ≡ d)
            × (t.seen conn w ≡ add_all b.consumer b.ids v)
            × (s.stamp conn token w ≡ fresh_rows b.consumer b.ids v))
          (map_err from_sqlx (
              q.fetch_all conn claimed_by_token_sql (
                Bind.json (map (λ (m : MessageId). m.as_str) b.ids)
                ∷ Bind.text b.consumer.as_str
                ∷ Bind.number token
                ∷ []))
            >>= λ fresh. pure (claims_from_fresh (map (λ (m : MessageId). m.as_str) b.ids) fresh))
          (λ ks w.
            (t.committed w ≡ d)
            × (t.seen conn w ≡ add_all b.consumer b.ids v)
            × (ks ≡ map (answer b.consumer v) b.ids))
          (λ _ w. t.committed w ≡ d)
  fetch_triple conn b token d v =
      Triple-bind
        (Triple-wrapped from_sqlx (
          s.claimed_by_token_lem conn b.consumer b.ids token d (add_all b.consumer b.ids v)
            (fresh_rows b.consumer b.ids v)))
        (λ fresh.
          Triple-pure (claims_from_fresh (map (λ (m : MessageId). m.as_str) b.ids) fresh) (λ w h. (
            h.0,
            h.1,
            claims_from_fresh-answer b.consumer v b.ids fresh (
                All-of_contains b.ids
                  (λ j k. ground (arith, h.2 j k, consumer_id_beq_iff b.consumer b.consumer))),
          )))

  -- After the insert: what it reported, what restoring reported, then the read by the token.
  answers_triple :
      (conn : q.Conn) (b : ClaimBatch) (token : ℕ) (d v : Db App) (result : Result E ℕ)
      → Triple
          (Attempted
            (λ _ w.
              (t.committed w ≡ d)
              × (t.seen conn w ≡ add_all b.consumer b.ids v)
              × (s.stamp conn token w ≡ fresh_rows b.consumer b.ids v))
            (λ _ w. t.committed w ≡ d)
            result)
          (attempt (restore_lock_timeout q conn b.lock_timeout) >>= λ restored.
            map_err (claim_error q) (lift result) >>= λ _.
            map_err from_sqlx (lift restored) >>= λ _.
            map_err from_sqlx (
              q.fetch_all conn claimed_by_token_sql (
                Bind.json (map (λ (m : MessageId). m.as_str) b.ids)
                ∷ Bind.text b.consumer.as_str
                ∷ Bind.number token
                ∷ []))
            >>= λ fresh. pure (claims_from_fresh (map (λ (m : MessageId). m.as_str) b.ids) fresh))
          (λ ks w.
            (t.committed w ≡ d)
            × (t.seen conn w ≡ add_all b.consumer b.ids v)
            × (ks ≡ map (answer b.consumer v) b.ids))
          (λ _ w. t.committed w ≡ d)
  answers_triple conn b token d v (ok affected) =
      Triple-bind
        (Triple-attempt
          (restore_triple conn b.lock_timeout token d (add_all b.consumer b.ids v)
            (fresh_rows b.consumer b.ids v))
          (λ w h. h))
        (elim [
          | ok _ ↦ fetch_triple conn b token d v
          | err e ↦ Triple-throw (from_sqlx e) (λ w h. h)
        ])
  answers_triple conn b token d v (err e) =
      Triple-bind {Q = λ _ w. t.committed w ≡ d}
        (Triple-mono (Triple-attempt (restore_keeps_triple conn b.lock_timeout d) (λ w h. h))
          (λ w h. h) (elim [ ok _ ↦ λ w h. h | err _ ↦ λ w h. h ]) (λ x w h. h))
        (λ restored. Triple-throw (claim_error q e) (λ w h. h))

  pub claim_many_triple :
      (conn : q.Conn) (b : ClaimBatch) (d v : Db App)
      → Triple
          (λ w. (t.committed w ≡ d) × (t.seen conn w ≡ v))
          (claim_many q conn b)
          (λ ks w.
            (t.committed w ≡ d)
            × (t.seen conn w ≡ add_all b.consumer b.ids v)
            × (ks ≡ map (answer b.consumer v) b.ids))
          (λ _ w. t.committed w ≡ d)
  unfolding claim_many
  claim_many_triple conn b d v =
      Triple-bind (Triple-wrapped from_sqlx (s.random_lem conn d v)) (λ token.
        Triple-bind
          (Triple-wrapped from_sqlx (set_triple conn b.lock_timeout token d v (λ k m. false)))
          (λ _.
            Triple-bind
              (Triple-attempt (s.claim_many_lem conn b.consumer b.ids token d v) (λ w' h. h))
              (λ result. answers_triple conn b token d v result)))

  -- Over a MySQL that runs its statements as documented, and tokens that no row carries before, a batch
  -- claimed, with or without a lock timeout, adds the rows of all its messages to what the connection
  -- sees, and answers, in order, `Fresh` for the messages that had none before the statement; it
  -- changes nothing that is committed, also where it fails.
  pub mysql_claim_many_lem :
      (conn : q.Conn) (b : ClaimBatch) (w : W)
      → Gives w
          (claim_many q conn b)
          (λ ks w'.
            (t.committed w' ≡ t.committed w)
            × (t.seen conn w' ≡ add_all b.consumer b.ids (t.seen conn w))
            × (ks ≡ map (answer b.consumer (t.seen conn w)) b.ids))
          (λ _ w'. t.committed w' ≡ t.committed w)
  mysql_claim_many_lem conn b w =
      (claim_many_triple conn b (t.committed w) (t.seen conn w)).at w (refl, refl)
