-- ===== src/Tests/Purge.antt =====
-- The purges of src/postgres.rs and src/mysql.rs, over a database whose clock moves on with every
-- statement.
use txbox.Common.{
  ℕ, zero, suc, ◌+◌, ◌^◌, ◌%◌, ◌≤◌, min, true, false, List, [], ◌∷◌, length, none, ◌≡◌, ◌≢◌, ap,
  ◌∙◌, arith, leb,
}
use txbox.Io.{Io, ret}
use txbox.Io.Triple.{Gives}
use txbox.Memory.{WorldOf, memory_of}
use txbox.Mysql
use txbox.Mysql.Purge.{mysql_purge_lem}
use txbox.Postgres
use txbox.Postgres.Purge.{pg_purge_lem}
use txbox.Retention.{retention_policy, with_batch_size}
use txbox.Sql.AgingPurge.{AgingPurge}
use txbox.Sqlx.{Bind, Driver}
use txbox.Store.Contract.{Db}

-- The time, and for each row the time from which it is too old.
record Ages : Type 0 where
  time : ℕ
  deadlines : List ℕ

-- How many rows are too old by the time `u`.
abbrev due : ℕ → List ℕ → ℕ
due u [] = 0
due u (d ∷ ds) = elim (leb d u) [ true ↦ suc (due u ds) | false ↦ due u ds ]

-- The rows after the first `limit` of those that are too old are deleted.
abbrev delete_due : ℕ → ℕ → List ℕ → List ℕ
delete_due now zero ds = ds
delete_due now (suc limit) [] = []
delete_due now (suc limit) (d ∷ ds) = elim (leb d now) [
  | true ↦ delete_due now limit ds
  | false ↦ d ∷ delete_due now (suc limit) ds
]

abbrev purge_due : ℕ → Io (WorldOf Ages) ℕ ℕ
purge_due limit w =
    let ages = w.seen.app in
    let now = suc ages.time in
    (
      ret (min limit (due now ages.deadlines)),
      record w {
        seen = record w.seen {
          app = record { time = now; deadlines = delete_due now limit ages.deadlines };
        };
      },
    )

abbrev run_purge : List Bind → Io (WorldOf Ages) ℕ ℕ
run_purge (age ∷ Bind.number limit ∷ []) = purge_due limit
run_purge _ = λ w. (ret 0, w)

abbrev aging : Driver (WorldOf Ages) ℕ
aging = record (memory_of (λ payload ages. ages)) { execute_pool = λ sql. run_purge }

due-delete_due :
    (now u limit : ℕ) (ds : List ℕ)
    → now ≤ u
    → due u (delete_due now limit ds) + min limit (due now ds) ≡ due u ds
due-delete_due now u zero ds le = ground arith
due-delete_due now u (suc limit) [] le = omega arith
due-delete_due now u (suc limit) (d ∷ ds) le =
    ground (arith, due-delete_due now u limit ds le, due-delete_due now u (suc limit) ds le)

due_le : (u : ℕ) (ds : List ℕ) → due u ds ≤ length ds
due_le u [] = omega arith
due_le u (d ∷ ds) = ground (arith, due_le u ds)

purge_due-AgingPurge :
    (limit : ℕ)
    → AgingPurge (purge_due limit) limit (λ w. w.seen.app.time) (λ w u. due u w.seen.app.deadlines)
purge_due-AgingPurge limit = record {
  run_lem = λ t f. record {
    at = λ w p.
        let now = suc w.seen.app.time in
        (
          omega (arith, p.0),
          ap (λ (g : ℕ → ℕ). min limit (g now)) p.1,
          λ u le.
              due-delete_due now u limit w.seen.app.deadlines (omega (arith, le))
              ∙ ap (λ (g : ℕ → ℕ). g u) p.1,
        );
  };
}

-- Two rows are too old from the start, one becomes so in the second round, and one is kept.
abbrev four_rows : WorldOf Ages
four_rows =
    let db : Db Ages = record {
      row = λ c m. true;
      app = record { time = 6; deadlines = 3 ∷ 8 ∷ 5 ∷ 100 ∷ [] };
    } in
    record {
      committed = db;
      seen = db;
      marked = none;
      stale = 0;
      timeout = 50;
      saved = none;
      stamps = [];
    }

pg_purge_lem_example :
    Gives four_rows
      (Postgres.purge aging 5 (with_batch_size (retention_policy 30) 0))
      (λ deleted w'.
        (6 ≤ w'.seen.app.time)
        × (deleted ≡ due w'.seen.app.time (3 ∷ 8 ∷ 5 ∷ 100 ∷ []) % 2 ^ 64)
        × (due w'.seen.app.time w'.seen.app.deadlines ≡ 0))
      (λ x _. x ≢ none)
pg_purge_lem_example =
    pg_purge_lem aging (λ w. w.seen.app.time) (λ w u. due u w.seen.app.deadlines) 5 30 0 4 four_rows
      (purge_due-AgingPurge 1) (λ u le. due_le u (3 ∷ 8 ∷ 5 ∷ 100 ∷ [])) (omega arith)

mysql_purge_lem_example :
    Gives four_rows
      (Mysql.purge aging 5 (with_batch_size (retention_policy 5000) 2))
      (λ deleted w'.
        (6 ≤ w'.seen.app.time)
        × (deleted ≡ due w'.seen.app.time (3 ∷ 8 ∷ 5 ∷ 100 ∷ []) % 2 ^ 64)
        × (due w'.seen.app.time w'.seen.app.deadlines ≡ 0))
      (λ x _. x ≢ none)
mysql_purge_lem_example =
    mysql_purge_lem aging (λ w. w.seen.app.time) (λ w u. due u w.seen.app.deadlines) 5 5000 2 4
      four_rows (purge_due-AgingPurge 2) (λ u le. due_le u (3 ∷ 8 ∷ 5 ∷ 100 ∷ [])) (omega arith)
