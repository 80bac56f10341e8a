-- ===== src/Sessions.antt =====
-- src/consumer.rs and src/store.rs with several calls at once: `Consumer::process` on many
-- connections of one pool, its awaits interleaved in any order, and the calls left at any await.
pub mod View
pub mod Sound
pub mod Invariant
pub mod Changes
pub mod Moves
pub mod Once
pub mod Batches
pub mod Deadlock
pub mod Drain
use txbox.Common.{ℕ, List, [], ◌∷◌, Option, none, some, if◌then◌else◌, ◌==◌, nat_eq}
use txbox.Consumer.{Consumer}
use txbox.Consumer.Steps.{Pc, advance}
use txbox.Error.{HandlerError, InboxError}
use txbox.Io.{Io, Flow, ret, fail, stop}
use txbox.Store.{InboxStore}
use txbox.Types.{Duration, ConsumerId, MessageId}

-- A family with the value at one index replaced.
abbrev pub update : {A : Type 0} → (ℕ → A) → ℕ → A → ℕ → A
update f i x j = if j == i then x else f j

-- What happens next, at the session `i`: the await where its call stands comes to its end; the
-- call's future is dropped while it waits; or, if no call is under way, a message is delivered. A
-- claim that waits for a row is not picked before the row is free, or it gives up.
pub data Event : Type 0 where
  awaits : ℕ → Event
  drops : ℕ → Event
  delivers : ℕ → MessageId → Event

pub record System (W Tx E T : Type 0) : Type 0 where
  pub world : W
  pub pc : ℕ → Pc Tx E T

module _ {W E T : Type 0} (store : InboxStore W E) where
  -- A call that does not reach its next await is over.
  abbrev pub reached : Flow (InboxError E) (Pc store.Tx E T) → Pc store.Tx E T
  reached (ret p) = p
  reached (fail e) = Pc.idle
  reached stop = Pc.idle

  -- The transaction of a call that is dropped between two awaits.
  abbrev pub dropped : Pc store.Tx E T → W → W
  dropped (Pc.claiming tx id) w = store.drop tx w
  dropped (Pc.claimed tx id k) w = store.drop tx w
  dropped (Pc.handled tx id r) w = store.drop tx w
  dropped p w = w

  abbrev pub delivered : Pc store.Tx E T → MessageId → Pc store.Tx E T
  delivered Pc.idle id = Pc.start id
  delivered (Pc.done _ _) id = Pc.start id
  delivered p id = p

  -- No call is under way.
  abbrev pub system : W → System W store.Tx E T
  system w = record { world = w; pc = λ _. Pc.idle }

  module _ (ids : ℕ → ConsumerId) (lock_timeout : ℕ → Option Duration)
      (handler : ℕ → MessageId → store.Conn → Io W (HandlerError E) T) where
    -- The consumer of the session `i`; all of them share the backend.
    abbrev pub service : ℕ → Consumer W E
    service i = record { store = store; id = ids i; lock_timeout = lock_timeout i }

    unfoldable pub step : Event → System W store.Tx E T → System W store.Tx E T
    unfolding advance
    step (Event.awaits i) s =
        let (r, w) = advance (service i) (handler i) (s.pc i) s.world in
        record { world = w; pc = update s.pc i (reached r) }
    step (Event.drops i) s = record { world = dropped (s.pc i) s.world; pc = update s.pc i Pc.idle }
    step (Event.delivers i id) s = record {
      world = s.world;
      pc = update s.pc i (delivered (s.pc i) id);
    }

    unfoldable pub run : List Event → System W store.Tx E T → System W store.Tx E T
    run [] s = s
    run (e ∷ es) s = run es (step e s)
