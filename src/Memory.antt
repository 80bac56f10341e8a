-- ===== src/Memory.antt =====
-- A database in memory, with one transaction at a time, behind the calls that the backends make of
-- sqlx. It runs the statements of src/sql.rs, src/sqlite.rs and src/postgres.rs, and the
-- claims of src/mysql.rs.
pub mod Laws
pub mod Returns
pub mod Pool
use Prim.Native.String.{String}
use txbox.Common.{
  suc, not, ◌&&◌, ℕ, ◌+◌, ◌-◌, min, Bool, true, false, ◌||◌, Option, none, some, List, [], ◌∷◌, map,
  if◌then◌else◌, ◌==◌, nat_eq,
}
use txbox.Io.{Flow, ret, fail, stop, Io, pure}
use txbox.Mysql.{restore_lock_timeout_sql}
use txbox.Sql.{savepoint_sql, release_and_savepoint_sql, rollback_to_sql}
use txbox.Sqlx.{Bind, Driver}
use txbox.Store.Contract.{Db, add, add_all, remove}
use txbox.Str.{Str, str, str_eq, str_beq}
use txbox.Types.{ConsumerId, MessageId, message_id_eq, consumer_id_eq}

pub record WorldOf (App : Type 0) : Type 0 where
  pub committed : Db App
  pub seen : Db App
  pub marked : Option (Db App)
  pub stale : ℕ
  pub timeout : ℕ
  pub saved : Option ℕ
  pub stamps : List (ℕ × ConsumerId × MessageId)

-- The application's data is a number.
abbrev pub World : Type 0
World = WorldOf ℕ

abbrev pub consumer_of : Str → ConsumerId
consumer_of s = record { as_str = s }

abbrev pub message_of : Str → MessageId
message_of s = record { as_str = s }

abbrev pub keep : (Str → Bool) → List Str → List Str
keep f [] = []
keep f (s ∷ ids) = let rest = keep f ids in if f s then s ∷ rest else rest

-- The ids that have no row.
abbrev pub new_ids : {App : Type 0} → ConsumerId → Db App → List Str → List Str
new_ids c v = keep (λ s. not (v.row c (message_of s)))

-- Whether a row carries a token, and a token that is past all of them.
abbrev pub stamped : List (ℕ × ConsumerId × MessageId) → ℕ → ConsumerId → MessageId → Bool
stamped [] token c m = false
stamped ((t, i, n) ∷ stamps) token c m =
    (t == token && (c == i && m == n)) || stamped stamps token c m

abbrev pub next_token : List (ℕ × ConsumerId × MessageId) → ℕ
next_token [] = 0
next_token ((t, i, n) ∷ stamps) = suc (t + next_token stamps)

abbrev pub stamp_all :
    ℕ
    → ConsumerId
    → List Str
    → List (ℕ × ConsumerId × MessageId)
    → List (ℕ × ConsumerId × MessageId)
stamp_all token c [] stamps = stamps
stamp_all token c (s ∷ ids) stamps = (token, c, message_of s) ∷ stamp_all token c ids stamps

abbrev pub is_delete : Str → Bool
is_delete [] = false
is_delete (c ∷ s) = c == b'D'

abbrev pub value_or : Option ℕ → ℕ → ℕ
value_or none n = n
value_or (some n) other = n

module _ {App : Type 0} where
  abbrev pub insert_one : Str → Str → Io (WorldOf App) ℕ ℕ
  insert_one c m w = (
    ret (if w.seen.row (consumer_of c) (message_of m) then 0 else 1),
    record w { seen = add (consumer_of c) (message_of m) w.seen },
  )

  abbrev pub insert_all : Str → List Str → Io (WorldOf App) ℕ (List Str)
  insert_all c ids w = (
    ret (new_ids (consumer_of c) w.seen ids),
    record w { seen = add_all (consumer_of c) (map message_of ids) w.seen },
  )

  abbrev pub insert_stamped : Str → ℕ → List Str → Io (WorldOf App) ℕ ℕ
  insert_stamped c token ids w = (
    ret 1,
    record w {
      seen = add_all (consumer_of c) (map message_of ids) w.seen;
      stamps = stamp_all token (consumer_of c) (new_ids (consumer_of c) w.seen ids) w.stamps;
    },
  )

  abbrev pub delete_one : Str → Str → Io (WorldOf App) ℕ ℕ
  delete_one c m w = (ret 1, record w { seen = remove (consumer_of c) (message_of m) w.seen })

  abbrev pub run_statement : (List ℕ → App → App) → String → List Bind → Io (WorldOf App) ℕ ℕ
  run_statement store sql (Bind.text c ∷ Bind.text m ∷ []) w =
      if is_delete (str sql) then delete_one c m w else insert_one c m w
  run_statement store sql (Bind.text c ∷ Bind.text m ∷ Bind.time now ∷ []) w = insert_one c m w
  run_statement store sql (Bind.number n ∷ []) w =
      (ret 1, record w { timeout = n; saved = some w.timeout })
  run_statement store sql (Bind.text c ∷ Bind.number token ∷ Bind.json ids ∷ []) w =
      insert_stamped c token ids w
  run_statement store sql (Bind.bytes b ∷ []) w =
      (ret 1, record w { seen = record w.seen { app = store b w.seen.app } })
  run_statement store sql _ w = (ret 0, w)

  abbrev pub run_query : List Bind → Io (WorldOf App) ℕ (List Str)
  run_query (Bind.text c ∷ Bind.time now ∷ Bind.json ids ∷ []) w = insert_all c ids w
  run_query (Bind.text c ∷ Bind.array ids ∷ []) w = insert_all c ids w
  run_query (Bind.json ids ∷ Bind.text c ∷ Bind.number token ∷ []) w =
      (ret (keep (λ s. stamped w.stamps token (consumer_of c) (message_of s)) ids), w)
  run_query _ w = (ret [], w)

  -- The savepoint keeps the contents; rolling back to it leaves it open.
  abbrev pub run_raw : Str → Io (WorldOf App) ℕ (Unit {0})
  run_raw sql w =
      if sql == str savepoint_sql || sql == str release_and_savepoint_sql
      then (ret tt, record w { marked = some w.seen })
      else if sql == str rollback_to_sql
      then elim w.marked [ none ↦ (fail 1, w) | some v ↦ (ret tt, record w { seen = v }) ]
      else if sql == str restore_lock_timeout_sql
      then (ret tt, record w { timeout = value_or w.saved w.timeout; saved = none })
      else (ret tt, w)

  abbrev pub run_purge : List Bind → Io (WorldOf App) ℕ ℕ
  run_purge (age ∷ Bind.number batch ∷ []) w =
      (ret (min batch w.stale), record w { stale = w.stale - min batch w.stale })
  run_purge _ w = (ret 0, w)

  -- `store` is what a statement with bytes alone does to the application's data.
  abbrev pub memory_of : (List ℕ → App → App) → Driver (WorldOf App) ℕ
  memory_of store = record {
    Conn = Unit;
    Tx = Unit;
    conn = λ tx. tx;
    drop = λ tx w. record w { seen = w.committed };
    begin = λ w. (ret tt, record w { seen = w.committed; marked = none });
    begin_with = λ sql w. (ret tt, record w { seen = w.committed; marked = none });
    commit = λ tx w. (ret tt, record w { committed = w.seen });
    rollback = λ tx w. (ret tt, record w { seen = w.committed });
    run_migrator = λ w. (ret tt, w);
    execute = λ conn. run_statement store;
    fetch_all = λ conn sql. run_query;
    raw_sql = λ conn sql. run_raw (str sql);
    execute_pool = λ sql. run_purge;
    fetch_one_pool = λ sql binds. pure false;
    code = λ e. none;
    mysql_number = λ e. none;
    now = λ w. 100;
    random = λ w. (ret (next_token w.stamps), w);
    out_of_range = 2;
    max_duration = 1000;
  }

abbrev pub ignore : List ℕ → ℕ → ℕ
ignore payload n = n

abbrev pub memory : Driver World ℕ
memory = memory_of ignore
