-- ===== src/Sessions/Moves.antt =====
-- What a call of `process` does until its next await ends keeps the invariant of all sessions.
use txbox.Common.{
  ℕ, ◌+◌, true, ◌||◌, ◌≡◌, inl, inr, refl, sym, ap, ◌∙◌, subst, Option, none, some, if◌then◌else◌,
  nat_eq, arith,
}
use txbox.Consumer.{claim, settle}
use txbox.Consumer.Steps.{Pc, advance}
use txbox.Error.{HandlerError, InboxError}
use txbox.Io.{Io}
use txbox.Io.Triple.{
  Triple, Triple-pure, Triple-throw, Triple-mono, Triple-bind, Triple-attempt, Triple-or_drop,
}
use txbox.Result.{Result, ok, err}
use txbox.Sessions.{update, service}
use txbox.Sessions.Sound.{update-same, closed-worked}
use txbox.Sessions.Changes.{Inv-opened, Inv-closed, Inv-taken, Inv-kept, Inv-worked, Inv-committed}
use txbox.Sessions.Invariant.{connection, Own, Inv, Inv-stay}
use txbox.Sessions.View.{
  Entry, View, closed, worked, committed, same_entry, Isolation, HandlerIsolation,
}
use txbox.Store.{InboxStore}
use txbox.Types.{
  Claim, Duration, ConsumerId, MessageId, Outcome, claim_request, consumer_id_beq_iff,
  message_id_beq_iff,
}

module _ {W E T : Type 0} (store : InboxStore W E) (k : Isolation store) (ids : ℕ → ConsumerId)
    (lock_timeout : ℕ → Option Duration)
    (handler : ℕ → MessageId → store.Conn → Io W (HandlerError E) T)
    (hk : (i : ℕ) → HandlerIsolation store k (ids i) (handler i)) (i : ℕ) (pc : ℕ → Pc store.Tx E T)
    (v : View) (h : Inv k.slot ids pc v) where
  abbrev Reaches : Pc store.Tx E T → W → Type 0
  Reaches p w = Inv k.slot ids (update pc i p) (k.view w)

  abbrev Moves : {A : Type 0} → Io W (InboxError E) A → (A → W → Type 0) → Type 0
  Moves m Q = Triple (λ w. k.view w ≡ v) m Q (λ _ w. Reaches Pc.idle w)

  -- Where the session `i` stands, and the view that the world has then.
  reaches :
      (p : Pc store.Tx E T) {u : View} (w : W)
      → k.view w ≡ u
      → Inv k.slot ids (update pc i p) u
      → Reaches p w
  reaches p w e inv = subst (Inv k.slot ids (update pc i p)) (sym e) inv

  -- The transaction dropped, whatever its own connection has done.
  given_up :
      (tx : store.Tx) (w : W)
      → connection k.slot (pc i) ≡ some (k.slot tx)
      → closed (k.slot tx) (k.view w) ≡ closed (k.slot tx) v
      → Reaches Pc.idle (store.drop tx w)
  given_up tx w mine e =
      reaches Pc.idle (store.drop tx w) (k.drop_lem tx w ∙ e)
        (Inv-closed k.slot ids pc i v h (k.slot tx) mine Pc.idle tt refl)

  start_moves :
      (id : MessageId)
      → Moves (advance (service store ids lock_timeout handler i) (handler i) (Pc.start id)) Reaches
  unfolding advance
  start_moves id =
      Triple-bind
        (Triple-mono (k.begin_lem v) (λ w q. q) (λ tx w q. q)
          (λ x w q. reaches Pc.idle w q (Inv-stay k.slot ids pc i Pc.idle v h tt refl)))
        (λ tx.
          Triple-pure (Pc.claiming tx id)
            (λ w q. reaches (Pc.claiming tx id) w q.1 (Inv-opened k.slot ids pc i v h tx id q.0)))

  claiming_moves :
      (tx : store.Tx) (id : MessageId)
      → pc i ≡ Pc.claiming tx id
      → Moves
          (advance (service store ids lock_timeout handler i) (handler i) (Pc.claiming tx id))
          Reaches
  unfolding advance claim claim_request
  claiming_moves tx id here =
      let mine : connection k.slot (pc i) ≡ some (k.slot tx) = ap (connection k.slot) here in
      let own = subst (Own k.slot (ids i) v) here (h.own i) in
      Triple-bind
        (Triple-or_drop (store.drop tx) (k.claim_lem tx _ v own.0) (λ x w q. given_up tx w mine q))
        (elim [
          | Claim.fresh ↦ Triple-pure (Pc.claimed tx id Claim.fresh) (λ w q.
              reaches (Pc.claimed tx id Claim.fresh) w q.2
                (Inv-taken k.slot ids pc i v h (k.slot tx) mine tx id refl own q.0 q.1))
          | Claim.duplicate ↦ Triple-pure (Pc.claimed tx id Claim.duplicate) (λ w q.
              let known : v.rows (ids i, id) ≡ true = elim q.0 [
                | inl r ↦ r
                | inr held ↦ ground (arith, held, own.1 (ids i, id))
              ] in
              reaches (Pc.claimed tx id Claim.duplicate) w q.1 (
                Inv-kept k.slot ids pc i v h (k.slot tx) mine (Pc.claimed tx id Claim.duplicate)
                  (own.0, known) refl))
        ])

  duplicate_moves :
      (tx : store.Tx) (id : MessageId)
      → pc i ≡ Pc.claimed tx id Claim.duplicate
      → Moves
          (advance
            (service store ids lock_timeout handler i)
            (handler i)
            (Pc.claimed tx id Claim.duplicate))
          Reaches
  unfolding advance
  duplicate_moves tx id here =
      let mine : connection k.slot (pc i) ≡ some (k.slot tx) = ap (connection k.slot) here in
      let own = subst (Own k.slot (ids i) v) here (h.own i) in
      Triple-bind
        (Triple-mono (k.rollback_lem tx v own.0) (λ w q. q) (λ _ w q. q)
          (λ x w q.
            reaches Pc.idle w q (Inv-closed k.slot ids pc i v h (k.slot tx) mine Pc.idle tt refl)))
        (λ _. Triple-pure (Pc.done id Outcome.duplicate) (λ w q.
          reaches (Pc.done id Outcome.duplicate) w q (
            Inv-closed k.slot ids pc i v h (k.slot tx) mine (Pc.done id Outcome.duplicate) own.1
              refl)))

  fresh_moves :
      (tx : store.Tx) (id : MessageId)
      → pc i ≡ Pc.claimed tx id Claim.fresh
      → Moves
          (advance
            (service store ids lock_timeout handler i)
            (handler i)
            (Pc.claimed tx id Claim.fresh))
          Reaches
  unfolding advance
  fresh_moves tx id here =
      let mine : connection k.slot (pc i) ≡ some (k.slot tx) = ap (connection k.slot) here in
      let own = subst (Own k.slot (ids i) v) here (h.own i) in
      Triple-bind
        (Triple-or_drop (store.drop tx) (Triple-attempt ((hk i).run_lem tx id v own.0) (λ w q. q))
          (λ x w (q : (f : Entry → ℕ) × (k.view w ≡ worked (k.slot tx) f v)).
            given_up tx w mine (ap (closed (k.slot tx)) q.1 ∙ closed-worked (k.slot tx) q.0 v)))
        (elim [
          | ok value ↦ Triple-pure (Pc.handled tx id (ok value)) (λ w q.
              let n = k.slot tx in
              let f : Entry → ℕ = λ x. v.work n x + (if same_entry x (ids i, id) then 1 else 0) in
              reaches (Pc.handled tx id (ok value)) w q (
                Inv-worked k.slot ids pc i v h n mine (Pc.handled tx id (ok value)) f
                  (
                    own.0,
                    own.1,
                    λ x. ap (λ g. g x) (update-same v.work n f) ∙ ground (arith, own.1 x, own.2 x),
                  )
                  refl))
          | err e ↦ Triple-pure (Pc.handled tx id (err e)) (λ w q.
              reaches (Pc.handled tx id (err e)) w q.1 (
                Inv-worked k.slot ids pc i v h (k.slot tx) mine (Pc.handled tx id (err e)) q.0 own.0
                  refl))
        ])

  handled_moves :
      (tx : store.Tx) (id : MessageId) (r : Result (HandlerError E) T)
      → pc i ≡ Pc.handled tx id r
      → Moves
          (advance (service store ids lock_timeout handler i) (handler i) (Pc.handled tx id r))
          Reaches
  unfolding advance settle
  handled_moves tx id (ok value) here =
      let n = k.slot tx in
      let mine : connection k.slot (pc i) ≡ some n = ap (connection k.slot) here in
      let own = subst (Own k.slot (ids i) v) here (h.own i) in
      let row : v.rows (ids i, id) || v.held n (ids i, id) ≡ true =
        ground (
          arith,
          own.1 (ids i, id),
          consumer_id_beq_iff (ids i) (ids i),
          message_id_beq_iff id id,
        ) in
      let through : (p : Pc store.Tx E T)
          → Own k.slot (ids i) (committed n v) p
          → connection k.slot p ≡ none
          → (w : W) → k.view w ≡ committed n v
          → Reaches p w =
        λ p o g w q. reaches p w q (Inv-committed k.slot ids pc i v h n mine p own.2 o g) in
      Triple-bind
        (Triple-bind
          (Triple-mono (k.commit_lem tx v own.0) (λ w q. q) (λ _ w q. q)
            (λ x w q. elim q [
              | inl gone ↦
                  reaches Pc.idle w gone (Inv-closed k.slot ids pc i v h n mine Pc.idle tt refl)
              | inr done ↦ through Pc.idle tt refl w done
            ]))
          (λ _. Triple-pure (Outcome.processed value) (λ w q. q)))
        (λ o. Triple-pure (Pc.done id o) (λ w q. through (Pc.done id o) row refl w q))
  handled_moves tx id (err e) here =
      let n = k.slot tx in
      let mine : connection k.slot (pc i) ≡ some n = ap (connection k.slot) here in
      let own = subst (Own k.slot (ids i) v) here (h.own i) in
      let over : (w : W) → k.view w ≡ closed n v → Reaches Pc.idle w =
        λ w q. reaches Pc.idle w q (Inv-closed k.slot ids pc i v h n mine Pc.idle tt refl) in
      Triple-bind
        (Triple-bind {Q = λ _ w. k.view w ≡ closed n v}
          (Triple-mono (Triple-attempt (k.rollback_lem tx v own) (λ w q. q)) (λ w q. q)
            (elim [ ok _ ↦ λ w q. q | err _ ↦ λ w q. q ]) (λ x w q. over w q))
          (λ _. Triple-throw (InboxError.handler e) (λ w q. over w q)))
        (λ o. Triple-pure {P = λ w. Reaches (Pc.done id o) w} (Pc.done id o) (λ w q. q))

  -- However the await ends, what all the sessions are left with fits together.
  pub advance_moves :
      (p : Pc store.Tx E T)
      → pc i ≡ p
      → Moves (advance (service store ids lock_timeout handler i) (handler i) p) Reaches
  unfolding advance
  advance_moves Pc.idle here = Triple-pure Pc.idle (λ w q.
      reaches Pc.idle w q
        (Inv-stay k.slot ids pc i Pc.idle v h (subst (Own k.slot (ids i) v) here (h.own i)) refl))
  advance_moves (Pc.start id) here = start_moves id
  advance_moves (Pc.claiming tx id) here = claiming_moves tx id here
  advance_moves (Pc.claimed tx id Claim.fresh) here = fresh_moves tx id here
  advance_moves (Pc.claimed tx id Claim.duplicate) here = duplicate_moves tx id here
  advance_moves (Pc.handled tx id r) here = handled_moves tx id r here
  advance_moves (Pc.done id o) here = Triple-pure (Pc.done id o) (λ w q.
      reaches (Pc.done id o) w q (
        Inv-stay k.slot ids pc i (Pc.done id o) v h (subst (Own k.slot (ids i) v) here (h.own i))
          refl))
