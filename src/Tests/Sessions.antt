-- ===== src/Tests/Sessions.antt =====
-- Two sessions of one pool, with their calls of `Consumer::process` side by side.
use txbox.Common.{ℕ, zero, suc, none, true, false, ◌≡◌, refl, List, [], ◌∷◌, if◌then◌else◌}
use txbox.Consumer.{claim, settle}
use txbox.Consumer.Steps.{Pc, advance}
use txbox.Memory.Pool.{Shared, resting, pool, act}
use txbox.Memory.Pool.Laws.{pool_isolation, act-HandlerIsolation}
use txbox.Sessions.{Event, System, run, step, system}
use txbox.Sessions.Once.{Rest, run-exactly_once}
use txbox.Sessions.View.{Entry}
use txbox.Tests.Fixture.{m1, billing}
use txbox.Types.{MessageId, Outcome, claim_request}

abbrev empty_pool : Shared
empty_pool = record { rows = λ e. false; effects = λ e. 0; first = resting; second = resting }

-- "m1" reaches both sessions. The second claims it first, and is dropped before it commits; the
-- first takes it over, and a redelivery to the second is a duplicate.
abbrev rivals : List Event
rivals =
    Event.delivers 0 m1
    ∷ Event.delivers 1 m1
    ∷ Event.awaits 0
    ∷ Event.awaits 1
    ∷ Event.awaits 1
    ∷ Event.awaits 1
    ∷ Event.drops 1
    ∷ Event.awaits 0
    ∷ Event.delivers 1 m1
    ∷ Event.awaits 1
    ∷ Event.awaits 0
    ∷ Event.awaits 0
    ∷ Event.awaits 1
    ∷ Event.awaits 1
    ∷ []

abbrev after : List Event → System Shared pool.Tx ℕ ℕ
after events =
    run pool (λ i. billing) (λ i. none) (λ i. act billing) events (system pool empty_pool)

rivals_outcomes :
    ((after rivals).pc 0 ≡ Pc.done m1 (Outcome.processed 1))
    × ((after rivals).pc 1 ≡ Pc.done m1 Outcome.duplicate)
unfolding run step advance claim settle claim_request
rivals_outcomes = (refl, refl)

nobody_holds : (n : ℕ) (e : Entry) → (pool_isolation.view empty_pool).held n e ≡ false
unfolding pool_isolation
nobody_holds zero e = refl
nobody_holds (suc zero) e = refl
nobody_holds (suc (suc n)) e = refl

empty_pool-Rest : Rest (pool_isolation.view empty_pool)
unfolding pool_isolation
empty_pool-Rest = (λ e. refl, nobody_holds)

run-exactly_once_example :
    ((e : Entry)
      → (pool_isolation.view (after rivals).world).effects e
        ≡ (if (pool_isolation.view (after rivals).world).rows e then 1 else 0))
    × ((i : ℕ) (id : MessageId) (o : Outcome ℕ)
        → (after rivals).pc i ≡ Pc.done id o
        → (pool_isolation.view (after rivals).world).rows (billing, id) ≡ true)
run-exactly_once_example =
    run-exactly_once pool pool_isolation (λ i. billing) (λ i. none) (λ i. act billing)
      (λ i. act-HandlerIsolation billing) rivals empty_pool empty_pool-Rest
