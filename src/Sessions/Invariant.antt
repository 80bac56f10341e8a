-- ===== src/Sessions/Invariant.antt =====
-- Where each call of `process` stands, against what its connection holds; and that what one call
-- does keeps it so for all.
use txbox.Common.{
  ℕ, true, false, ◌≡◌, ◌≢◌, ◌⊎◌, inl, inr, sym, ap, ◌∙◌, subst, Option, none, some, if◌then◌else◌,
  ◌==◌, nat_eq, nat_beq_iff, arith, Bool-cases,
}
use txbox.Consumer.Steps.{Pc}
use txbox.Result.{ok, err}
use txbox.Sessions.{update}
use txbox.Sessions.Sound.{Sound, Beside}
use txbox.Sessions.View.{Entry, View, same_entry}
use txbox.Types.{Claim, ConsumerId}

-- What holds at `i` of the new value, and of the old values elsewhere.
pub update-all :
    {A : Type 0} (P : ℕ → A → Type 0) (f : ℕ → A) (i : ℕ) (x : A)
    → ((j : ℕ) → j ≢ i → P j (f j))
    → P i x
    → (j : ℕ) → P j (update f i x j)
update-all P f i x others here j = elim (Bool-cases (j == i)) [
  | inl e ↦
      subst (P j) (sym (ap (λ b. if b then x else f j) e))
        (subst (λ k. P k x) (sym ((nat_beq_iff j i).0 e)) here)
  | inr ne ↦
      subst (P j) (sym (ap (λ b. if b then x else f j) ne))
        (others j (λ e. ground (arith, ne, (nat_beq_iff j i).1 e)))
]

-- The connection's row and no other.
abbrev pub Holds : View → ℕ → Entry → Type 0
Holds v n e = (x : Entry) → v.held n x ≡ same_entry x e

abbrev pub Idle : View → ℕ → Type 0
Idle v n = (x : Entry) → v.work n x ≡ 0

module _ {Tx E T : Type 0} (slot : Tx → ℕ) where
  -- The connection that a call has.
  abbrev pub connection : Pc Tx E T → Option ℕ
  connection (Pc.claiming tx id) = some (slot tx)
  connection (Pc.claimed tx id k) = some (slot tx)
  connection (Pc.handled tx id r) = some (slot tx)
  connection _ = none

  abbrev pub Own : ConsumerId → View → Pc Tx E T → Type 0
  Own c v (Pc.claiming tx id) =
      (v.used (slot tx) ≡ true) × ((x : Entry) → v.held (slot tx) x ≡ false) × Idle v (slot tx)
  Own c v (Pc.claimed tx id Claim.fresh) =
      (v.used (slot tx) ≡ true) × Holds v (slot tx) (c, id) × Idle v (slot tx)
  Own c v (Pc.claimed tx id Claim.duplicate) = (v.used (slot tx) ≡ true) × (v.rows (c, id) ≡ true)
  Own c v (Pc.handled tx id (ok value)) =
      (v.used (slot tx) ≡ true)
      × Holds v (slot tx) (c, id)
      × ((x : Entry) → v.work (slot tx) x ≡ (if v.held (slot tx) x then 1 else 0))
  Own c v (Pc.handled tx id (err e)) = v.used (slot tx) ≡ true
  Own c v (Pc.done id o) = v.rows (c, id) ≡ true
  Own c v _ = Unit

  pub record Inv (ids : ℕ → ConsumerId) (pc : ℕ → Pc Tx E T) (v : View) : Type 0 where
    pub sound : Sound v
    pub own : (i : ℕ) → Own (ids i) v (pc i)
    pub apart : (i j n : ℕ) → connection (pc i) ≡ some n → connection (pc j) ≡ some n → i ≡ j

  Own-Beside :
      (c : ConsumerId) (n : ℕ) (v v' : View) (p : Pc Tx E T)
      → connection p ≢ some n
      → Beside n v v'
      → Own c v p
      → Own c v' p
  Own-Beside c n v v' (Pc.claiming tx id) far b h =
      let o = b.others (slot tx) (λ q. far (ap some q)) in
      (o.0 ∙ h.0, λ x. ap (λ f. f x) o.1 ∙ h.1 x, λ x. ap (λ f. f x) o.2 ∙ h.2 x)
  Own-Beside c n v v' (Pc.claimed tx id Claim.fresh) far b h =
      let o = b.others (slot tx) (λ q. far (ap some q)) in
      (o.0 ∙ h.0, λ x. ap (λ f. f x) o.1 ∙ h.1 x, λ x. ap (λ f. f x) o.2 ∙ h.2 x)
  Own-Beside c n v v' (Pc.claimed tx id Claim.duplicate) far b h =
      let o = b.others (slot tx) (λ q. far (ap some q)) in (o.0 ∙ h.0, b.grows (c, id) h.1)
  Own-Beside c n v v' (Pc.handled tx id (ok value)) far b h =
      let o = b.others (slot tx) (λ q. far (ap some q)) in
      (
        o.0 ∙ h.0,
        λ x. ap (λ f. f x) o.1 ∙ h.1 x,
        λ x. ap (λ f. f x) o.2 ∙ h.2 x ∙ ap (λ f. if f x then 1 else 0) (sym o.1),
      )
  Own-Beside c n v v' (Pc.handled tx id (err e)) far b h =
      (b.others (slot tx) (λ q. far (ap some q))).0 ∙ h
  Own-Beside c n v v' (Pc.done id o) far b h = b.grows (c, id) h
  Own-Beside c n v v' Pc.idle far b h = tt
  Own-Beside c n v v' (Pc.start id) far b h = tt

  -- The session `i` moves on connection `n`, which is its own or nobody's.
  pub Inv-move :
      (ids : ℕ → ConsumerId) (pc : ℕ → Pc Tx E T) (i n : ℕ) (p : Pc Tx E T) (v v' : View)
      → Inv ids pc v
      → ((j : ℕ) → j ≢ i → connection (pc j) ≢ some n)
      → Beside n v v'
      → Sound v'
      → Own (ids i) v' p
      → (connection p ≡ none) ⊎ (connection p ≡ some n)
      → Inv ids (update pc i p) v'
  Inv-move ids pc i n p v v' h far b s o c = record {
    sound = s;
    own =
        update-all (λ j q. Own (ids j) v' q) pc i p
          (λ j ne. Own-Beside (ids j) n v v' (pc j) (far j ne) b (h.own j)) o;
    apart = λ j k m q r.
        ground (arith, nat_beq_iff j i, nat_beq_iff k i, h.apart j k m, c, far j, far k);
  }

  -- The session `i` gives up its call, or answers it, and the database is as it was.
  pub Inv-stay :
      (ids : ℕ → ConsumerId) (pc : ℕ → Pc Tx E T) (i : ℕ) (p : Pc Tx E T) (v : View)
      → Inv ids pc v
      → Own (ids i) v p
      → connection p ≡ none
      → Inv ids (update pc i p) v
  Inv-stay ids pc i p v h o c = record {
    sound = h.sound;
    own = update-all (λ j q. Own (ids j) v q) pc i p (λ j ne. h.own j) o;
    apart = λ j k m q r. ground (arith, nat_beq_iff j i, nat_beq_iff k i, h.apart j k m, c);
  }

  -- A call's connection is in use.
  pub Own-used :
      (c : ConsumerId) (v : View) (p : Pc Tx E T) (n : ℕ)
      → connection p ≡ some n
      → Own c v p
      → v.used n ≡ true
  Own-used c v (Pc.claiming tx id) n q h = ground (arith, h.0)
  Own-used c v (Pc.claimed tx id Claim.fresh) n q h = ground (arith, h.0)
  Own-used c v (Pc.claimed tx id Claim.duplicate) n q h = ground (arith, h.0)
  Own-used c v (Pc.handled tx id (ok value)) n q h = ground (arith, h.0)
  Own-used c v (Pc.handled tx id (err e)) n q h = ground (arith, h)
  Own-used c v (Pc.done id o) n q h = ground arith
  Own-used c v Pc.idle n q h = ground arith
  Own-used c v (Pc.start id) n q h = ground arith
