-- ===== src/Memory/Pool/Laws.antt =====
-- The pool in memory does what the documentation asks of transactions side by side.
use txbox.Common.{
  ℕ, zero, suc, ◌+◌, ◌≡◌, ◌⊎◌, refl, ◌∙◌, sym, subst, Option, fun_ext, ap, inl, inr, Bool, true,
  false, not, ◌||◌, Bool-cases, if◌then◌else◌, nat_eq, arith,
}
use txbox.Io.{Io, Flow, ret}
use txbox.Io.Triple.{Triple, Ends, Gives}
use txbox.Sessions.View.{
  Entry, View, opened, closed, taken, worked, committed, same_entry, Claimed, Isolation,
  HandlerIsolation,
}
use txbox.Types.{Claim, ConsumerId, MessageId}
use txbox.Memory.Pool.{
  Shared, resting, at, set, number, view_of, acquire, end, make_permanent, take_row, claim_row,
  pool, act,
}

View-ext :
    (a b : View)
    → a.rows ≡ b.rows
    → a.effects ≡ b.effects
    → ((n : ℕ) → (a.used n ≡ b.used n) × (a.held n ≡ b.held n) × (a.work n ≡ b.work n))
    → a ≡ b
View-ext a b r e h =
    let used = fun_ext (λ n. (h n).0) in
    let held = fun_ext (λ n. (h n).1) in
    let work = fun_ext (λ n. (h n).2) in
    λ i. record { rows = r i; effects = e i; used = used i; held = held i; work = work i }

pub view_of-end : (tx : Bool) (w : Shared) → view_of (end tx w) ≡ closed (number tx) (view_of w)
view_of-end true w = View-ext _ _ refl refl (elim [
  | zero ↦ (refl, refl, refl)
  | suc zero ↦ (refl, refl, refl)
  | suc (suc n) ↦ (ground arith, ground arith, ground arith)
])
view_of-end false w = View-ext _ _ refl refl (elim [
  | zero ↦ (refl, refl, refl)
  | suc zero ↦ (refl, refl, refl)
  | suc (suc n) ↦ (ground arith, ground arith, ground arith)
])

view_of-take :
    (tx : Bool) (e : Entry) (w : Shared)
    → view_of (take_row tx e w) ≡ taken (number tx) e (view_of w)
view_of-take true e w = View-ext _ _ refl refl (elim [
  | zero ↦ (refl, refl, refl)
  | suc zero ↦ (refl, refl, refl)
  | suc (suc n) ↦ (refl, ground arith, refl)
])
view_of-take false e w = View-ext _ _ refl refl (elim [
  | zero ↦ (refl, refl, refl)
  | suc zero ↦ (refl, refl, refl)
  | suc (suc n) ↦ (refl, ground arith, refl)
])

view_of-act :
    (tx : Bool) (f : Entry → ℕ) (w : Shared)
    → view_of (set tx (record (at tx w) { work = f }) w) ≡ worked (number tx) f (view_of w)
view_of-act true f w = View-ext _ _ refl refl (elim [
  | zero ↦ (refl, refl, refl)
  | suc zero ↦ (refl, refl, refl)
  | suc (suc n) ↦ (refl, refl, ground arith)
])
view_of-act false f w = View-ext _ _ refl refl (elim [
  | zero ↦ (refl, refl, refl)
  | suc zero ↦ (refl, refl, refl)
  | suc (suc n) ↦ (refl, refl, ground arith)
])

pub view_of-permanent :
    (tx : Bool) (w : Shared) → view_of (make_permanent tx w) ≡ committed (number tx) (view_of w)
view_of-permanent true w = view_of-end true _
view_of-permanent false w = view_of-end false _

view_of-acquire :
    (tx : Bool) (w : Shared)
    → view_of (set tx (record resting { used = true }) w) ≡ opened (number tx) (view_of w)
view_of-acquire true w = View-ext _ _ refl refl (elim [
  | zero ↦ (refl, refl, refl)
  | suc zero ↦ (refl, refl, refl)
  | suc (suc n) ↦ (ground arith, ground arith, ground arith)
])
view_of-acquire false w = View-ext _ _ refl refl (elim [
  | zero ↦ (refl, refl, refl)
  | suc zero ↦ (refl, refl, refl)
  | suc (suc n) ↦ (ground arith, ground arith, ground arith)
])

-- A law of each view, from one of each world.
pub viewed :
    {E A : Type 0} (m : Io Shared E A) (Q : View → A → Shared → Type 0)
    (R : View → Option E → Shared → Type 0)
    → ((w : Shared) → Gives w m (Q (view_of w)) (R (view_of w)))
    → (v : View) → Triple (λ w. view_of w ≡ v) m (Q v) (R v)
viewed m Q R f v = record { at = λ w q. subst (λ u. Ends (Q u) (R u) (m w).0 (m w).1) q (f w) }

-- How an action ends, from what it computes to.
computed :
    {E A : Type 0} (m : Io Shared E A) (w : Shared) (r : Flow E A) (w' : Shared)
    (Q : A → Shared → Type 0) (R : Option E → Shared → Type 0)
    → m w ≡ (r, w')
    → Ends Q R r w'
    → Gives w m Q R
computed m w r w' Q R e h = subst (λ (x : Flow _ _ × Shared). Ends Q R x.0 x.1) (sym e) h

pub acquire_gives :
    (w : Shared)
    → Gives w acquire
        (λ tx w'.
          ((view_of w).used (number tx) ≡ false) × (view_of w' ≡ opened (number tx) (view_of w)))
        (λ _ w'. view_of w' ≡ view_of w)
acquire_gives w = elim (Bool-cases w.first.used) [
  | inl one ↦ elim (Bool-cases w.second.used) [
    | inl two ↦ rw (one, two) refl
    | inr two ↦
        computed acquire w (ret false) (set false (record resting { used = true }) w) _
          (λ _ w'. view_of w' ≡ view_of w) (rw (one, two) refl) (two, view_of-acquire false w)
  ]
  | inr one ↦
      computed acquire w (ret true) (set true (record resting { used = true }) w) _
        (λ _ w'. view_of w' ≡ view_of w) (rw one refl) (one, view_of-acquire true w)
]

held_here :
    (tx : Bool) (e : Entry) (w : Shared)
    → w.rows e || (at tx w).held e ≡ true
    → (w.rows e ≡ true) ⊎ ((view_of w).held (number tx) e ≡ true)
held_here true e w h = ground arith
held_here false e w h = ground arith

free_everywhere :
    (tx : Bool) (e : Entry) (w : Shared)
    → w.rows e || (at tx w).held e ≡ false
    → (at (not tx) w).held e ≡ false
    → (k : ℕ) → (view_of w).held k e ≡ false
free_everywhere true e w h o zero = ground arith
free_everywhere true e w h o (suc zero) = o
free_everywhere false e w h o zero = o
free_everywhere false e w h o (suc zero) = ground arith
free_everywhere tx e w h o (suc (suc k)) = refl

pub claim_row_gives :
    (tx : Bool) (e : Entry) (w : Shared)
    → Gives w
        (claim_row tx e)
        (λ k w'. Claimed (number tx) e (view_of w) k (view_of w'))
        (λ _ w'. closed (number tx) (view_of w') ≡ closed (number tx) (view_of w))
claim_row_gives tx e w = elim (Bool-cases (w.rows e || (at tx w).held e)) [
  | inl known ↦
      computed (claim_row tx e) w (ret Claim.duplicate) w _
        (λ _ w'. closed (number tx) (view_of w') ≡ closed (number tx) (view_of w)) (rw known refl)
        (held_here tx e w known, refl)
  | inr new ↦ elim (Bool-cases ((at (not tx) w).held e)) [
    | inl busy ↦ rw (new, busy) refl
    | inr free ↦
        computed (claim_row tx e) w (ret Claim.fresh) (take_row tx e w) _
          (λ _ w'. closed (number tx) (view_of w') ≡ closed (number tx) (view_of w))
          (rw (new, free) refl)
          (ground (arith, new), free_everywhere tx e w new free, view_of-take tx e w)
  ]
]

unfoldable pub pool_isolation : Isolation pool
pool_isolation = record {
  view = view_of;
  slot = number;
  begin_lem =
      viewed acquire (λ v tx w. (v.used (number tx) ≡ false) × (view_of w ≡ opened (number tx) v))
        (λ v _ w. view_of w ≡ v) acquire_gives;
  claim_lem = λ tx r v u.
      viewed (claim_row tx (r.consumer, r.id))
        (λ v k w. Claimed (number tx) (r.consumer, r.id) v k (view_of w))
        (λ v _ w. closed (number tx) (view_of w) ≡ closed (number tx) v)
        (claim_row_gives tx (r.consumer, r.id)) v;
  commit_lem =
      λ tx v u. record { at = λ w q. view_of-permanent tx w ∙ ap (committed (number tx)) q };
  rollback_lem = λ tx v u. record { at = λ w q. view_of-end tx w ∙ ap (closed (number tx)) q };
  drop_lem = view_of-end;
}

act-worked :
    (c : ConsumerId) (id : MessageId) (tx : Bool) (w : Shared)
    → view_of (act c id tx w).1
      ≡ worked
          (number tx)
          (λ x. (view_of w).work (number tx) x + (if same_entry x (c, id) then 1 else 0))
          (view_of w)
act-worked c id true w = view_of-act true _ w
act-worked c id false w = view_of-act false _ w

pub act-HandlerIsolation : (c : ConsumerId) → HandlerIsolation pool pool_isolation c (act c)
unfolding pool_isolation
act-HandlerIsolation c = record {
  run_lem = λ tx id v u. record {
    at = λ w q.
        act-worked c id tx w
        ∙ ap
            (λ u.
              worked (number tx)
                (λ x. u.work (number tx) x + (if same_entry x (c, id) then 1 else 0)) u)
            q;
  };
}
