-- ===== src/Sessions/Once.antt =====
-- Exactly once, with any number of calls of `Consumer::process` at once.
use txbox.Common.{
  ℕ, true, false, ◌≡◌, refl, sym, ap, subst, fun_ext, List, [], ◌∷◌, Option, some, if◌then◌else◌,
  nat_eq, nat_beq_iff, arith,
}
use txbox.Consumer.Steps.{Pc, advance}
use txbox.Error.{HandlerError, InboxError}
use txbox.Io.{Io, Flow, ret, fail, stop}
use txbox.Io.Triple.{Ends}
use txbox.Sessions.{Event, System, update, service, step, run, system, reached, dropped, delivered}
use txbox.Sessions.Invariant.{connection, Own, Inv, Inv-stay}
use txbox.Sessions.Changes.{Inv-closed}
use txbox.Sessions.Moves.{advance_moves}
use txbox.Sessions.Sound.{Sound}
use txbox.Sessions.View.{Entry, View, Isolation, HandlerIsolation}
use txbox.Store.{InboxStore}
use txbox.Types.{Duration, ConsumerId, MessageId, Outcome}

-- Each recorded message was acted on once, no other was, and no transaction holds a row.
abbrev pub Rest : View → Type 0
Rest v =
    ((e : Entry) → v.effects e ≡ (if v.rows e then 1 else 0))
    × ((n : ℕ) (e : Entry) → v.held n e ≡ false)

Rest-Sound : (v : View) → Rest v → Sound v
Rest-Sound v h = record {
  once = h.0;
  new = λ n e held. ground (arith, held, h.1 n e);
  single = λ n k e held q. ground (arith, held, h.1 n e);
}

update_self : {A : Type 0} (f : ℕ → A) (i : ℕ) {x : A} → f i ≡ x → update f i x ≡ f
update_self f i e = fun_ext (λ j. ground (arith, nat_beq_iff j i, e))

module _ {W E T : Type 0} (store : InboxStore W E) (k : Isolation store) (ids : ℕ → ConsumerId)
    (lock_timeout : ℕ → Option Duration)
    (handler : ℕ → MessageId → store.Conn → Io W (HandlerError E) T)
    (hk : (i : ℕ) → HandlerIsolation store k (ids i) (handler i)) where
  abbrev Fits : System W store.Tx E T → Type 0
  Fits s = Inv k.slot ids s.pc (k.view s.world)

  reached-Fits :
      (i : ℕ) (pc : ℕ → Pc store.Tx E T) (r : Flow (InboxError E) (Pc store.Tx E T)) (w : W)
      → Ends
          (λ p w. Inv k.slot ids (update pc i p) (k.view w))
          (λ _ w. Inv k.slot ids (update pc i Pc.idle) (k.view w))
          r
          w
      → Inv k.slot ids (update pc i (reached store r)) (k.view w)
  reached-Fits i pc (ret p) w h = h
  reached-Fits i pc (fail e) w h = h
  reached-Fits i pc stop w h = h

  gone :
      (i : ℕ) (pc : ℕ → Pc store.Tx E T) (w : W) (tx : store.Tx)
      → Inv k.slot ids pc (k.view w)
      → connection k.slot (pc i) ≡ some (k.slot tx)
      → Inv k.slot ids (update pc i Pc.idle) (k.view (store.drop tx w))
  gone i pc w tx h mine =
      subst (Inv k.slot ids (update pc i Pc.idle)) (sym (k.drop_lem tx w))
        (Inv-closed k.slot ids pc i (k.view w) h (k.slot tx) mine Pc.idle tt refl)

  dropped-Fits :
      (i : ℕ) (pc : ℕ → Pc store.Tx E T) (w : W) (p : Pc store.Tx E T)
      → pc i ≡ p
      → Inv k.slot ids pc (k.view w)
      → Inv k.slot ids (update pc i Pc.idle) (k.view (dropped store p w))
  dropped-Fits i pc w (Pc.claiming tx id) e h = gone i pc w tx h (ap (connection k.slot) e)
  dropped-Fits i pc w (Pc.claimed tx id a) e h = gone i pc w tx h (ap (connection k.slot) e)
  dropped-Fits i pc w (Pc.handled tx id r) e h = gone i pc w tx h (ap (connection k.slot) e)
  dropped-Fits i pc w Pc.idle e h = Inv-stay k.slot ids pc i Pc.idle (k.view w) h tt refl
  dropped-Fits i pc w (Pc.start id) e h = Inv-stay k.slot ids pc i Pc.idle (k.view w) h tt refl
  dropped-Fits i pc w (Pc.done id o) e h = Inv-stay k.slot ids pc i Pc.idle (k.view w) h tt refl

  delivered-Fits :
      (i : ℕ) (pc : ℕ → Pc store.Tx E T) (id : MessageId) (v : View) (p : Pc store.Tx E T)
      → pc i ≡ p
      → Inv k.slot ids pc v
      → Inv k.slot ids (update pc i (delivered store p id)) v
  delivered-Fits i pc id v Pc.idle e h = Inv-stay k.slot ids pc i (Pc.start id) v h tt refl
  delivered-Fits i pc id v (Pc.done _ _) e h = Inv-stay k.slot ids pc i (Pc.start id) v h tt refl
  delivered-Fits i pc id v (Pc.start m) e h =
      subst (λ f. Inv k.slot ids f v) (sym (update_self pc i e)) h
  delivered-Fits i pc id v (Pc.claiming tx m) e h =
      subst (λ f. Inv k.slot ids f v) (sym (update_self pc i e)) h
  delivered-Fits i pc id v (Pc.claimed tx m a) e h =
      subst (λ f. Inv k.slot ids f v) (sym (update_self pc i e)) h
  delivered-Fits i pc id v (Pc.handled tx m r) e h =
      subst (λ f. Inv k.slot ids f v) (sym (update_self pc i e)) h

  step-Fits :
      (e : Event) (s : System W store.Tx E T)
      → Fits s
      → Fits (step store ids lock_timeout handler e s)
  unfolding step
  step-Fits (Event.awaits i) s h =
      let (r, w) =
        advance (service store ids lock_timeout handler i) (handler i) (s.pc i) s.world in
      reached-Fits i s.pc r w (
        (advance_moves store k ids lock_timeout handler hk i s.pc (k.view s.world) h (s.pc i)
            refl).at
          s.world refl)
  step-Fits (Event.drops i) s h = dropped-Fits i s.pc s.world (s.pc i) refl h
  step-Fits (Event.delivers i id) s h = delivered-Fits i s.pc id (k.view s.world) (s.pc i) refl h

  run-Fits :
      (events : List Event) (s : System W store.Tx E T)
      → Fits s
      → Fits (run store ids lock_timeout handler events s)
  unfolding run
  run-Fits [] s h = h
  run-Fits (e ∷ events) s h =
      run-Fits events (step store ids lock_timeout handler e s) (step-Fits e s h)

  system-Fits : (w : W) → Rest (k.view w) → Fits (system store w)
  system-Fits w h = record {
    sound = Rest-Sound (k.view w) h;
    own = λ i. tt;
    apart = λ i j n q r. ground (arith, q);
  }

  -- Over a backend whose transactions run side by side as its documentation asks, and handlers that
  -- act on their own connection, once where they succeed, and leave the rows of the inbox to the
  -- library: from contents where each recorded message was acted on once and no other was, and no
  -- row is held, any number of calls of `process`, their awaits interleaved in any order, calls
  -- dropped at any await, and messages delivered again and to several sessions at once: each
  -- recorded message was acted on once and no other was, and the message of every call that
  -- returned an outcome is recorded.
  pub run-exactly_once :
      (events : List Event) (w : W)
      → Rest (k.view w)
      → let s = run store ids lock_timeout handler events (system store w) in
        ((e : Entry) → (k.view s.world).effects e ≡ (if (k.view s.world).rows e then 1 else 0))
        × ((i : ℕ) (id : MessageId) (o : Outcome T)
            → s.pc i ≡ Pc.done id o
            → (k.view s.world).rows (ids i, id) ≡ true)
  run-exactly_once events w h =
      let s = run store ids lock_timeout handler events (system store w) in
      let inv = run-Fits events (system store w) (system-Fits w h) in
      (inv.sound.once, λ i id o e. subst (Own k.slot (ids i) (k.view s.world)) e (inv.own i))
