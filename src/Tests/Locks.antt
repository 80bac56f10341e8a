-- ===== src/Tests/Locks.antt =====
-- A database whose rows are locked: every insert times out.
use Prim.Native.String.{String}
use txbox.Common.{ℕ, some, none, List, [], ◌∷◌, ◌≡◌, ◌≢◌, ◌⊎◌, ap}
use txbox.Io.{Io, fail}
use txbox.Io.Triple.{Gives}
use txbox.Memory.{World, memory, ignore, run_statement, value_or}
use txbox.Mysql.{claim, claim_many}
use txbox.Mysql.Brackets.{LockTimeouts}
use txbox.Mysql.Restores.{mysql_claim-restores, mysql_claim_many-restores}
use txbox.Sqlx.{Bind, Driver}
use txbox.Tests.Fixture.{m1, known_db, world_of, billing}
use txbox.Types.{ClaimBatch, ClaimRequest}

abbrev locked_statement : String → List Bind → Io World ℕ ℕ
locked_statement sql (Bind.number n ∷ []) = run_statement ignore sql (Bind.number n ∷ [])
locked_statement sql _ = λ w. (fail 9, w)

abbrev locked : Driver World ℕ
locked = record memory { execute = λ conn. locked_statement; mysql_number = λ e. some 1205 }

abbrev request : ClaimRequest
request = record { consumer = billing; id = m1; lock_timeout = some 1500000 }

locked-LockTimeouts : LockTimeouts locked (λ conn w. w.timeout) (λ conn w. w.saved) ⊥
locked-LockTimeouts = record {
  set_lem = λ conn n t. record { at = λ w h. ap some h };
  insert_lem = λ conn c m t v. record { at = λ w h ne. h };
  random_lem = λ conn t v. record { at = λ w h. h };
  batch_lem = λ conn c token ids t v. record { at = λ w h ne. h };
  fetch_lem = λ conn c token ids t v. record { at = λ w h. h };
  restore_lem = λ conn t. record { at = λ w h. ap (λ v. value_or v w.timeout) h };
}

-- The insert times out, and the session's own 50 seconds are in force again.
mysql_claim-restores_example :
    Gives
      (world_of known_db)
      (claim locked tt request)
      (λ _ w'. w'.timeout ≡ 50)
      (λ x w'. (x ≢ none → w'.timeout ≡ 50) ⊎ ⊥)
mysql_claim-restores_example =
    mysql_claim-restores locked (λ conn w. w.timeout) (λ conn w. w.saved) ⊥ locked-LockTimeouts tt
      request (world_of known_db)

abbrev batch : ClaimBatch
batch = record { consumer = billing; ids = m1 ∷ []; lock_timeout = some 1500000 }

mysql_claim_many-restores_example :
    Gives
      (world_of known_db)
      (claim_many locked tt batch)
      (λ _ w'. w'.timeout ≡ 50)
      (λ x w'. (x ≢ none → w'.timeout ≡ 50) ⊎ ⊥)
mysql_claim_many-restores_example =
    mysql_claim_many-restores locked (λ conn w. w.timeout) (λ conn w. w.saved) ⊥ locked-LockTimeouts
      tt batch (world_of known_db)
