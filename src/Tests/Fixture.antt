-- ===== src/Tests/Fixture.antt =====
-- A consumer over SQLite in memory, with its handlers and its contents.
use txbox.Common.{
  [], ℕ, suc, none, false, ◌≡◌, refl, true, ap, ◌==◌, if◌then◌else◌, Bool-cases, inl, inr,
}
use txbox.Consumer.{Consumer}
use txbox.Consumer.Many.Runs.{BatchHandlerContract}
use txbox.Consumer.Process.{HandlerContract}
use txbox.Consumer.Redelivery.{Applies}
use txbox.Error.{HandlerError, BoxError}
use txbox.Io.{Io, ret, fail}
use txbox.Memory.{World, memory}
use txbox.Memory.Laws.{memory_transactions, memory_sqlite}
use txbox.Sqlite.{sqlite_inbox, sqlite_savepoints}
use txbox.Memory.Returns.{memory-ReliableDriver}
use txbox.Sqlite.Reliable.{sqlite-Reliable}
use txbox.Store.Reliable.{Reliable}
use txbox.Sqlite.Refines.{sqlite_contract, sqlite_savepoint_contract}
use txbox.Store.{Savepoints}
use txbox.Store.Contract.{Contract, SavepointContract, Db}
use txbox.Str.{str, str_eq}
use txbox.Types.{ConsumerId, MessageId}

abbrev pub billing : ConsumerId
billing = record { as_str = str "billing" }

abbrev pub m1 : MessageId
m1 = record { as_str = str "m1" }

abbrev pub m2 : MessageId
m2 = record { as_str = str "m2" }

abbrev pub m3 : MessageId
m3 = record { as_str = str "m3" }

abbrev pub shop : Consumer World ℕ
shop = record { store = sqlite_inbox memory 10; id = billing; lock_timeout = none }

abbrev pub shop_contract : Contract shop.store ℕ
shop_contract = sqlite_contract memory memory_transactions memory_sqlite 10

abbrev pub shop_savepoints : Savepoints shop.store
shop_savepoints = sqlite_savepoints memory 10

abbrev pub shop_savepoint_contract : SavepointContract shop.store shop_savepoints ℕ shop_contract
shop_savepoint_contract = sqlite_savepoint_contract memory memory_transactions memory_sqlite 10

-- No message yet, and the counter of the application at 4.
abbrev pub empty_db : Db ℕ
empty_db = record { row = λ c m. false; app = 4 }

-- The message "m1" is recorded.
abbrev pub known_db : Db ℕ
known_db = record { row = λ c m. m.as_str == str "m1"; app = 4 }

abbrev pub world_of : Db ℕ → World
world_of d = record {
  committed = d;
  seen = d;
  marked = none;
  stale = 25;
  timeout = 50;
  saved = none;
  stamps = [];
}

abbrev pub counted : Db ℕ → Db ℕ
counted d = record d { app = suc d.app }

-- Counts, and succeeds.
abbrev pub count_handler : Unit {0} → Io World (HandlerError ℕ) ℕ
count_handler conn w = (ret 9, record w { seen = counted w.seen })

-- Counts, and fails.
abbrev pub failing_handler : Unit {0} → Io World (HandlerError ℕ) ℕ
failing_handler conn w = (fail (BoxError.foreign 3), record w { seen = counted w.seen })

-- Counts, and fails on "m2".
abbrev pub batch_handler : Unit {0} → MessageId → Io World (HandlerError ℕ) ℕ
batch_handler conn m w =
    if m.as_str == str "m2" then failing_handler conn w else count_handler conn w

abbrev pub effect_of : ℕ → ℕ
effect_of n = n

abbrev pub CountPost : MessageId → Db ℕ → ℕ → Db ℕ → Type 0
CountPost m = Applies effect_of

abbrev pub CountFail : MessageId → Type 0
CountFail m = (m.as_str == str "m2") ≡ true

pub count_handler-HandlerContract :
    HandlerContract shop shop_contract count_handler (Applies effect_of)
count_handler-HandlerContract = record {
  run_lem = λ conn d v. record {
    at = λ w h. (h.0, (ap (λ (x : Db ℕ). x.row) h.1, ap (λ (x : Db ℕ). suc x.app) h.1));
  };
}

pub failing_handler-HandlerContract :
    HandlerContract shop shop_contract failing_handler (Applies effect_of)
failing_handler-HandlerContract = record { run_lem = λ conn d v. record { at = λ w h. h.0 } }

pub batch_handler-BatchHandlerContract :
    BatchHandlerContract shop shop_savepoints shop_contract shop_savepoint_contract batch_handler
      CountPost CountFail
batch_handler-BatchHandlerContract = record {
  run_lem = λ conn m d v. record {
    at = λ w h. elim (Bool-cases (m.as_str == str "m2")) [
      | inl bad ↦ rw bad (h.0, λ _. (h.2, refl))
      | inr good ↦
          rw good (h.0, h.2, (ap (λ (x : Db ℕ). x.row) h.1, ap (λ (x : Db ℕ). suc x.app) h.1))
    ];
  };
}

pub CountPost-keeps :
    (m : MessageId) (v : Db ℕ) (value : ℕ) (u : Db ℕ)
    → CountPost m v value u
    → (j : MessageId) → u.row billing j ≡ v.row billing j
CountPost-keeps m v value u h j = ap (λ f. f billing j) h.0

abbrev pub shop_reliable : Reliable shop.store ⊥
shop_reliable = sqlite-Reliable memory ⊥ memory-ReliableDriver 10
