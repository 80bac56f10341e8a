-- ===== src/Sessions/Sound.antt =====
-- What holds of the database whatever transactions are open, and that each operation keeps it.
use txbox.Common.{
  ℕ, true, false, ◌||◌, ◌≡◌, ◌≢◌, refl, sym, subst, fun_ext, if◌then◌else◌, nat_eq, nat_beq_iff,
  arith,
}
use txbox.Sessions.{update}
use txbox.Sessions.View.{Entry, View, opened, closed, taken, worked, committed, same_entry}
use txbox.Types.{consumer_id_beq_iff, message_id_beq_iff}

-- Each recorded message was acted on once, no other was, and a row is held by one transaction at
-- most, before it is committed.
pub record Sound (v : View) : Type 0 where
  pub once : (e : Entry) → v.effects e ≡ (if v.rows e then 1 else 0)
  pub new : (n : ℕ) (e : Entry) → v.held n e ≡ true → v.rows e ≡ false
  pub single : (n k : ℕ) (e : Entry) → v.held n e ≡ true → v.held k e ≡ true → n ≡ k

-- What an operation on connection `n` leaves alone.
pub record Beside (n : ℕ) (v v' : View) : Type 0 where
  pub grows : (e : Entry) → v.rows e ≡ true → v'.rows e ≡ true
  pub others :
      (k : ℕ) → k ≢ n → (v'.used k ≡ v.used k) × (v'.held k ≡ v.held k) × (v'.work k ≡ v.work k)

module _ {A : Type 0} (f : ℕ → A) (n : ℕ) (x : A) where
  pub update-other : (k : ℕ) → k ≢ n → update f n x k ≡ f k
  update-other k ne = ground (arith, nat_beq_iff k n)

  pub update-same : update f n x n ≡ x
  update-same = ground (arith, nat_beq_iff n n)

module _ (v : View) (n : ℕ) where
  pub kept-Beside : Beside n v v
  kept-Beside = record { grows = λ e h. h; others = λ k ne. (refl, refl, refl) }

  pub opened-Beside : Beside n v (opened n v)
  opened-Beside = record {
    grows = λ e h. h;
    others = λ k ne. (
      update-other v.used n true k ne,
      update-other v.held n (λ _. false) k ne,
      update-other v.work n (λ _. 0) k ne,
    );
  }

  pub closed-Beside : Beside n v (closed n v)
  closed-Beside = record {
    grows = λ e h. h;
    others = λ k ne. (
      update-other v.used n false k ne,
      update-other v.held n (λ _. false) k ne,
      update-other v.work n (λ _. 0) k ne,
    );
  }

  pub committed-Beside : Beside n v (committed n v)
  committed-Beside = record {
    grows = λ e h. ground (arith, h);
    others = λ k ne. (
      update-other v.used n false k ne,
      update-other v.held n (λ _. false) k ne,
      update-other v.work n (λ _. 0) k ne,
    );
  }

  pub taken-Beside : (e : Entry) → Beside n v (taken n e v)
  taken-Beside e = record {
    grows = λ e h. h;
    others = λ k ne. (refl, update-other v.held n (λ x. v.held n x || same_entry x e) k ne, refl);
  }

  pub worked-Beside : (f : Entry → ℕ) → Beside n v (worked n f v)
  worked-Beside f = record {
    grows = λ e h. h;
    others = λ k ne. (refl, refl, update-other v.work n f k ne);
  }

-- What a transaction has done is gone with it.
pub closed-worked : (n : ℕ) (f : Entry → ℕ) (v : View) → closed n (worked n f v) ≡ closed n v
closed-worked n f v =
    let same : update (update v.work n f) n (λ _. 0) ≡ update v.work n (λ _. 0) =
      fun_ext (λ k. ground (arith, nat_beq_iff k n)) in
    λ i. record v {
      used = update v.used n false;
      held = update v.held n (λ _. false);
      work = same i;
    }

pub same_entry-eq : (x y : Entry) → same_entry x y ≡ true → x ≡ y
same_entry-eq (c, m) (d, n) h =
    let one : c ≡ d = ground (arith, consumer_id_beq_iff c d) in
    let two : m ≡ n = ground (arith, consumer_id_beq_iff c d, message_id_beq_iff m n) in
    λ i. (one i, two i)

module _ (v : View) (n : ℕ) (h : Sound v) where
  open h use {once, new, single}

  pub opened-Sound : Sound (opened n v)
  opened-Sound = record {
    once = once;
    new = λ k e p. ground (arith, nat_beq_iff k n, new k e);
    single = λ k l e p q. ground (arith, nat_beq_iff k n, nat_beq_iff l n, single k l e);
  }

  pub closed-Sound : Sound (closed n v)
  closed-Sound = record {
    once = once;
    new = λ k e p. ground (arith, nat_beq_iff k n, new k e);
    single = λ k l e p q. ground (arith, nat_beq_iff k n, nat_beq_iff l n, single k l e);
  }

  pub worked-Sound : (f : Entry → ℕ) → Sound (worked n f v)
  worked-Sound f = record { once = once; new = new; single = single }

  pub taken-Sound :
      (e : Entry) → v.rows e ≡ false → ((k : ℕ) → v.held k e ≡ false) → Sound (taken n e v)
  taken-Sound e absent free =
      let here : (x : Entry) → same_entry x e ≡ true → v.rows x ≡ false =
        λ x p. subst (λ y. v.rows y ≡ false) (sym (same_entry-eq x e p)) absent in
      let none_of : (k : ℕ) (x : Entry) → same_entry x e ≡ true → v.held k x ≡ false =
        λ k x p. subst (λ y. v.held k y ≡ false) (sym (same_entry-eq x e p)) (free k) in
      record {
        once = once;
        new = λ k x p. ground (arith, nat_beq_iff k n, new k x, here x);
        single = λ k l x p q. ground (
          arith,
          nat_beq_iff k n,
          nat_beq_iff l n,
          single k l x,
          single n l x,
          single k n x,
          none_of k x,
          none_of l x,
        );
      }

  pub committed-Sound :
      ((e : Entry) → v.work n e ≡ (if v.held n e then 1 else 0)) → Sound (committed n v)
  committed-Sound did = record {
    once = λ e. ground (arith, once e, did e, new n e);
    new = λ k e p. ground (arith, nat_beq_iff k n, new k e, single k n e);
    single = λ k l e p q. ground (arith, nat_beq_iff k n, nat_beq_iff l n, single k l e);
  }
