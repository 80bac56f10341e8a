-- ===== src/Sessions/Changes.antt =====
-- What each operation of a backend does to the invariant of all sessions, where the session that
-- calls it moves on.
use txbox.Common.{
  ℕ, true, false, ◌||◌, ◌≡◌, ◌≢◌, inl, inr, refl, ap, ◌∙◌, subst, none, some, if◌then◌else◌, nat_eq,
  arith,
}
use txbox.Consumer.Steps.{Pc}
use txbox.Sessions.{update}
use txbox.Sessions.Sound.{
  update-same, kept-Beside, opened-Beside, closed-Beside, committed-Beside, taken-Beside,
  worked-Beside, opened-Sound, closed-Sound, committed-Sound, taken-Sound, worked-Sound,
}
use txbox.Sessions.Invariant.{connection, Own, Inv, Inv-move, Own-used}
use txbox.Sessions.View.{Entry, View, opened, closed, taken, worked, committed, same_entry}
use txbox.Types.{Claim, ConsumerId, MessageId}

module _ {Tx E T : Type 0} (slot : Tx → ℕ) (ids : ℕ → ConsumerId) (pc : ℕ → Pc Tx E T) (i : ℕ)
    (v : View) (h : Inv slot ids pc v) where
  -- Nobody else has the connection of the session `i`.
  pub alone :
      (n : ℕ) → connection slot (pc i) ≡ some n → (j : ℕ) → j ≢ i → connection slot (pc j) ≢ some n
  alone n mine j ne q = ne (h.apart j i n q mine)

  -- Nobody has a connection that is not in use.
  pub unused : (n : ℕ) → v.used n ≡ false → (j : ℕ) → j ≢ i → connection slot (pc j) ≢ some n
  unused n no_use j ne q =
      let taken_by = Own-used slot (ids j) v (pc j) n q (h.own j) in
      ground (arith, taken_by, no_use)

  pub Inv-opened :
      (tx : Tx) (id : MessageId)
      → v.used (slot tx) ≡ false
      → Inv slot ids (update pc i (Pc.claiming tx id)) (opened (slot tx) v)
  Inv-opened tx id free =
      let n = slot tx in
      Inv-move slot ids pc i n (Pc.claiming tx id) v (opened n v) h (unused n free)
        (opened-Beside v n) (opened-Sound v n h.sound)
        (
          update-same v.used n true,
          λ x. ap (λ f. f x) (update-same v.held n (λ _. false)),
          λ x. ap (λ f. f x) (update-same v.work n (λ _. 0)),
        )
        (inr refl)

  module _ (n : ℕ) (mine : connection slot (pc i) ≡ some n) where
    pub Inv-closed :
        (p : Pc Tx E T)
        → Own slot (ids i) (closed n v) p
        → connection slot p ≡ none
        → Inv slot ids (update pc i p) (closed n v)
    Inv-closed p own gone =
        Inv-move slot ids pc i n p v (closed n v) h (alone n mine) (closed-Beside v n)
          (closed-Sound v n h.sound) own (inl gone)

    pub Inv-taken :
        (tx : Tx) (id : MessageId)
        → n ≡ slot tx
        → Own {E = E} {T = T} slot (ids i) v (Pc.claiming tx id)
        → v.rows (ids i, id) ≡ false
        → ((k : ℕ) → v.held k (ids i, id) ≡ false)
        → Inv slot ids (update pc i (Pc.claimed tx id Claim.fresh)) (taken (slot tx) (ids i, id) v)
    Inv-taken tx id e own absent free =
        let m = slot tx in
        let e1 : Entry = (ids i, id) in
        Inv-move slot ids pc i m (Pc.claimed tx id Claim.fresh) v (taken m e1 v) h
          (subst (λ n. (j : ℕ) → j ≢ i → connection slot (pc j) ≢ some n) e (alone n mine))
          (taken-Beside v m e1) (taken-Sound v m h.sound e1 absent free)
          (
            own.0,
            λ x.
                ap (λ f. f x) (update-same v.held m (λ x. v.held m x || same_entry x e1))
                ∙ ap (λ b. b || same_entry x e1) (own.1 x),
            own.2,
          )
          (inr refl)

    -- The call goes on, and the database is as it was.
    pub Inv-kept :
        (p : Pc Tx E T)
        → Own slot (ids i) v p
        → connection slot p ≡ some n
        → Inv slot ids (update pc i p) v
    Inv-kept p own same =
        Inv-move slot ids pc i n p v v h (alone n mine) (kept-Beside v n) h.sound own (inr same)

    -- The handler has acted on its own connection.
    pub Inv-worked :
        (p : Pc Tx E T) (f : Entry → ℕ)
        → Own slot (ids i) (worked n f v) p
        → connection slot p ≡ some n
        → Inv slot ids (update pc i p) (worked n f v)
    Inv-worked p f own same =
        Inv-move slot ids pc i n p v (worked n f v) h (alone n mine) (worked-Beside v n f)
          (worked-Sound v n h.sound f) own (inr same)

    pub Inv-committed :
        (p : Pc Tx E T)
        → ((e : Entry) → v.work n e ≡ (if v.held n e then 1 else 0))
        → Own slot (ids i) (committed n v) p
        → connection slot p ≡ none
        → Inv slot ids (update pc i p) (committed n v)
    Inv-committed p did own gone =
        Inv-move slot ids pc i n p v (committed n v) h (alone n mine) (committed-Beside v n)
          (committed-Sound v n h.sound did) own (inl gone)
