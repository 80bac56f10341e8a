-- ===== src/Mysql/Brackets.antt =====
-- What src/mysql.rs does around an insert: it sets a lock timeout, and puts the session's own back.
use txbox.Common.{ℕ, ◌≡◌, ◌≢◌, ◌⊎◌, inl, inr, refl, Option, none, some, List, [], ◌∷◌}
use txbox.Error.{InboxError, from_sqlx}
use txbox.Io.{Io, map_err, lift, attempt, ◌>>=◌, ◌>>◌}
use txbox.Io.Triple.{
  Triple, Attempted, Triple-pure, Triple-bind, Triple-mono, Triple-fix, Triple-attempt,
  Triple-map_err,
}
use txbox.Mysql.{
  claim_sql, claim_many_sql, claimed_by_token_sql, claim_error, set_lock_timeout,
  set_lock_timeout_sql, mysql_lock_timeout, restore_lock_timeout, restore_lock_timeout_sql,
}
use txbox.Result.{Result, ok, err}
use txbox.Sqlx.{Bind, Driver}
use txbox.Str.{Str}
use txbox.Types.{ConsumerId, Duration, MessageId}

-- A call that leaves the session's lock timeout, and the user variable that keeps one, alone, also
-- where it fails.
abbrev pub Spares : {W E A : Type 0} → (W → ℕ) → (W → Option ℕ) → Io W E A → Type 0
Spares {W} timeout saved m =
    (t : ℕ) (v : Option ℕ)
    → Triple (λ w. (timeout w ≡ t) × (saved w ≡ v)) m (λ _ w. (timeout w ≡ t) × (saved w ≡ v))
        (λ x w. x ≢ none → (timeout w ≡ t) × (saved w ≡ v))

-- The session behind a connection: its lock timeout, and the user variable that keeps a timeout. The
-- first statement keeps the timeout and sets another, or fails and changes neither; the inserts, the
-- query and drawing a token change neither; the last statement puts the kept timeout back, or does
-- not return, which shows `Broken`.
pub record LockTimeouts {W E : Type 0} (q : Driver W E) (timeout : q.Conn → W → ℕ)
    (saved : q.Conn → W → Option ℕ) (Broken : Type 0) : Type 0 where
  pub set_lem :
      (conn : q.Conn) (n t : ℕ)
      → Triple
          (λ w. timeout conn w ≡ t)
          (q.execute conn set_lock_timeout_sql (Bind.number n ∷ []))
          (λ _ w. saved conn w ≡ some t)
          (λ x w. x ≢ none → timeout conn w ≡ t)
  pub insert_lem :
      (conn : q.Conn) (c : ConsumerId) (m : MessageId)
      → Spares
          (timeout conn)
          (saved conn)
          (q.execute conn claim_sql (Bind.text c.as_str ∷ Bind.text m.as_str ∷ []))
  pub random_lem : (conn : q.Conn) → Spares (timeout conn) (saved conn) q.random
  pub batch_lem :
      (conn : q.Conn) (c : ConsumerId) (token : ℕ) (ids : List Str)
      → Spares (timeout conn) (saved conn) (
          q.execute conn claim_many_sql
            (Bind.text c.as_str ∷ Bind.number token ∷ Bind.json ids ∷ []))
  pub fetch_lem :
      (conn : q.Conn) (c : ConsumerId) (token : ℕ) (ids : List Str)
      → Spares (timeout conn) (saved conn) (
          q.fetch_all conn claimed_by_token_sql
            (Bind.json ids ∷ Bind.text c.as_str ∷ Bind.number token ∷ []))
  pub restore_lem :
      (conn : q.Conn) (t : ℕ)
      → Triple
          (λ w. saved conn w ≡ some t)
          (q.raw_sql conn restore_lock_timeout_sql)
          (λ _ w. timeout conn w ≡ t)
          (λ _ _. Broken)

module _ {W E : Type 0} (q : Driver W E) (timeout : q.Conn → W → ℕ) (saved : q.Conn → W → Option ℕ)
    (Broken : Type 0) (law : LockTimeouts q timeout saved Broken) where
  -- How a call that ends early leaves the timeout.
  abbrev pub Kept : {F : Type 0} → q.Conn → ℕ → Option F → W → Type 0
  Kept conn t x w = (x ≢ none → timeout conn w ≡ t) ⊎ Broken

  -- What restoring finds: the timeout kept if the claim has set one, or in force.
  abbrev Ready : q.Conn → Option Duration → ℕ → W → Type 0
  Ready conn none t w = timeout conn w ≡ t
  Ready conn (some d) t w = saved conn w ≡ some t

  set-Ready :
      (conn : q.Conn) (d : Option Duration) (t : ℕ)
      → Triple
          (λ w. timeout conn w ≡ t)
          (set_lock_timeout q conn d)
          (λ _ w. Ready conn d t w)
          (Kept conn t)
  unfolding set_lock_timeout
  set-Ready conn none t = Triple-pure tt (λ w h. h)
  set-Ready conn (some d) t =
      Triple-bind
        (Triple-mono (law.set_lem conn (mysql_lock_timeout d) t) (λ w h. h) (λ a w h. h)
          (λ x w h. inl h))
        (λ _. Triple-pure tt (λ w h. h))

  pub spared :
      {A : Type 0} (conn : q.Conn) (t : ℕ) {m : Io W E A}
      → Spares (timeout conn) (saved conn) m
      → Triple
          (λ w. timeout conn w ≡ t)
          (map_err (from_sqlx {E = E}) m)
          (λ _ w. timeout conn w ≡ t)
          (Kept conn t)
  spared conn t h = Triple-fix (saved conn) (λ v.
      Triple-map_err {R = λ x w. x ≢ none → timeout conn w ≡ t} {R' = Kept conn t} from_sqlx
        (Triple-mono (h t v) (λ w p. p) (λ a w p. p.0) (λ x w p ne. (p ne).0))
        (λ e w p. inl (λ _. p (λ q. cc))) (λ w p. inl (λ ne. absurd (ne refl))))

  insert-Ready :
      (conn : q.Conn) (d : Option Duration) (t : ℕ) {m : Io W E ℕ}
      → Spares (timeout conn) (saved conn) m
      → Triple
          (Ready conn d t)
          (attempt {F = InboxError E} m)
          (λ _ w. Ready conn d t w)
          (Kept conn t)
  insert-Ready conn none t law_of = Triple-fix (saved conn) (λ v.
      Triple-mono
        (Triple-attempt {R' = Kept conn t} (law_of t v) (λ w h. inl (λ ne. absurd (ne refl))))
        (λ w h. h) (elim [ ok a ↦ λ w h. h.0 | err e ↦ λ w h. (h (λ p. cc)).0 ]) (λ x w h. h))
  insert-Ready conn (some d) t law_of = Triple-fix (timeout conn) (λ now.
      Triple-mono
        (Triple-attempt {R' = Kept conn t} (law_of now (some t))
          (λ w h. inl (λ ne. absurd (ne refl))))
        (λ w h. (h.1, h.0)) (elim [ ok a ↦ λ w h. h.1 | err e ↦ λ w h. (h (λ p. cc)).1 ])
        (λ x w h. h))

  -- After the statement that restores: it has, or it returned an error.
  abbrev Restored : q.Conn → ℕ → Result E (Unit {0}) → W → Type 0
  Restored conn t = Attempted (λ _ w. timeout conn w ≡ t) (λ _ _. Broken)

  restore-Restored :
      (conn : q.Conn) (d : Option Duration) (t : ℕ)
      → Triple
          (Ready conn d t)
          (attempt {F = InboxError E} (restore_lock_timeout q conn d))
          (Restored conn t)
          (Kept conn t)
  unfolding restore_lock_timeout
  restore-Restored conn none t = record { at = λ w h. h }
  restore-Restored conn (some d) t =
      Triple-attempt {R' = Kept conn t}
        (Triple-bind (law.restore_lem conn t) (λ _. Triple-pure tt (λ w h. h))) (λ w h. inr h)

  answer-Kept :
      {B : Type 0} (conn : q.Conn) (t : ℕ) (result : Result E ℕ) (restored : Result E (Unit {0}))
      (next : ℕ → Io W (InboxError E) B)
      → ((n : ℕ)
          → Triple (λ w. timeout conn w ≡ t) (next n) (λ _ w. timeout conn w ≡ t) (Kept conn t))
      → Triple
          (Restored conn t restored)
          (map_err (claim_error q) (lift result) >>= λ affected.
            map_err from_sqlx (lift restored) >> next affected)
          (λ _ w. timeout conn w ≡ t)
          (Kept conn t)
  answer-Kept conn t (ok n) (ok done) next rest = record { at = λ w h. (rest n).at w h }
  answer-Kept conn t (ok n) (err e) next rest = record { at = λ w h. inr h }
  answer-Kept conn t (err e) (ok done) next rest = record { at = λ w h. inl (λ _. h) }
  answer-Kept conn t (err e) (err f) next rest = record { at = λ w h. inr h }

  -- Set, insert, restore, and what follows.
  pub bracketed :
      {B : Type 0} (conn : q.Conn) (d : Option Duration) (t : ℕ) {m : Io W E ℕ}
      (next : ℕ → Io W (InboxError E) B)
      → Spares (timeout conn) (saved conn) m
      → ((n : ℕ)
          → Triple (λ w. timeout conn w ≡ t) (next n) (λ _ w. timeout conn w ≡ t) (Kept conn t))
      → Triple
          (λ w. timeout conn w ≡ t)
          (map_err from_sqlx (set_lock_timeout q conn d) >>= λ _. attempt m >>= λ result.
            attempt (restore_lock_timeout q conn d) >>= λ restored.
            map_err (claim_error q) (lift result) >>= λ affected.
            map_err from_sqlx (lift restored) >> next affected)
          (λ _ w. timeout conn w ≡ t)
          (Kept conn t)
  bracketed conn d t next spares rest =
      Triple-bind
        (Triple-map_err {R' = Kept conn t} from_sqlx (set-Ready conn d t)
          (λ e w. elim [ inl keeps ↦ inl (λ _. keeps (λ p. cc)) | inr b ↦ inr b ])
          (λ w. elim [ inl keeps ↦ inl (λ ne. absurd (ne refl)) | inr b ↦ inr b ]))
        (λ _. Triple-bind (insert-Ready conn d t spares) (λ result.
          Triple-bind (restore-Restored conn d t)
            (λ restored. answer-Kept conn t result restored next rest)))
