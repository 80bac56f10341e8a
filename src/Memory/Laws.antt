-- ===== src/Memory/Laws.antt =====
-- The database in memory does what the backends ask of theirs.
use Prim.Native.String.{String}
use txbox.Common.{
  Bool, ◌≤◌, fun_ext, false, ◌||◌, ◌∙◌, ℕ, ◌-◌, min, not, ◌&&◌, ◌≡◌, inl, inr, refl, sym, ap, some,
  List, [], ◌∷◌, map, arith, contains, Bool-cases, subst, if◌then◌else◌, ◌==◌, nat_eq,
}
use txbox.Consumer.Answers.{All-of_contains}
use txbox.Io.Triple.{Triple}
use txbox.Mysql.Batch.{MysqlBatch, fresh_rows}
use txbox.Mysql.Claims.{MysqlClaim}
use txbox.Memory.{
  keep, stamped, stamp_all, next_token, World, value_or, memory_of, memory, ignore, message_of,
  new_ids, insert_all,
}
use txbox.Sql.Laws.{Transactions, ReportsFresh}
use txbox.Sql.Purge.{PurgeStatement}
use txbox.Sqlx.{Bind}
use txbox.Sqlite.Refines.{SqliteStatements}
use txbox.Postgres.Refines.{PgStatements}
use txbox.Store.Contract.{Db, add, add_all, remove}
use txbox.Str.{Str, str_eq, str_beq_iff}
use txbox.Types.{ConsumerId, MessageId, message_id_eq, consumer_id_eq}

rows_of : (ids : List MessageId) → map message_of (map (λ (m : MessageId). m.as_str) ids) ≡ ids
rows_of [] = refl
rows_of (m ∷ ids) = ap (λ ms. m ∷ ms) (rows_of ids)

contains-keep :
    (f : Str → Bool) (ids : List Str) (s : Str) → contains (keep f ids) s ≡ (contains ids s && f s)
contains-keep f [] s = refl
contains-keep f (i ∷ ids) s = elim (Bool-cases (s == i)) [
  | inl same ↦
      let here : s ≡ i = (str_beq_iff s i).0 same in
      subst (λ j. contains (keep f (j ∷ ids)) s ≡ (contains (j ∷ ids) s && f s)) here
        (ground (arith, contains-keep f ids s, str_beq_iff s s))
  | inr other ↦ ground (arith, contains-keep f ids s)
]

contains_text :
    (m : MessageId) (ids : List MessageId)
    → contains (map (λ (n : MessageId). n.as_str) ids) m.as_str ≡ contains ids m
contains_text m [] = refl
contains_text m (n ∷ ids) = ground (arith, contains_text m ids)

new_ids-ReportsFresh :
    {App : Type 0} (c : ConsumerId) (v : Db App) (ids : List MessageId)
    → ReportsFresh c v ids (new_ids c v (map (λ (m : MessageId). m.as_str) ids))
new_ids-ReportsFresh c v ids = All-of_contains ids (λ j h.
    let texts = map (λ (m : MessageId). m.as_str) ids in
    ground (
      arith,
      contains-keep (λ i. not (v.row c (message_of i))) texts j.as_str,
      contains_text j ids,
    ))

pub insert_all_triple :
    {App : Type 0} (c : ConsumerId) (ids : List MessageId) (d v : Db App)
    → Triple
        (λ w. (w.committed ≡ d) × (w.seen ≡ v))
        (insert_all c.as_str (map (λ (m : MessageId). m.as_str) ids))
        (λ fresh w. (w.committed ≡ d) × (w.seen ≡ add_all c ids v) × ReportsFresh c v ids fresh)
        (λ _ w. w.committed ≡ d)
insert_all_triple c ids d v = record {
  at = λ w h. (
    h.0,
    cc (h.1, rows_of ids),
    subst (λ x. ReportsFresh c v ids (new_ids c x (map (λ (m : MessageId). m.as_str) ids)))
        (sym h.1) (new_ids-ReportsFresh c v ids),
  );
}

abbrev pub transactions_of :
    {App : Type 0} (store : List ℕ → App → App)
    → Transactions (memory_of store) (memory_of store).begin App
transactions_of store = record {
  committed = λ w. w.committed;
  seen = λ conn w. w.seen;
  marked = λ conn w. w.marked;
  begin_lem = λ d. record { at = λ w h. (h, h) };
  commit_lem = λ tx d v. record { at = λ w h. h.1 };
  rollback_lem = λ tx d. record { at = λ w h. h };
  drop_lem = λ tx w. refl;
  savepoint_lem = λ c d v. record { at = λ w h. (h.0, h.1, ap some h.1) };
  release_and_savepoint_lem = λ c d u v. record { at = λ w h. (h.0, h.1, ap some h.1) };
  release_lem = λ c d u v. record { at = λ w h. (h.0, h.1) };
  rollback_to_lem = λ c d u v. record { at = λ w h. rw h.2 (h.0, refl, h.2) };
}

abbrev pub memory_transactions : Transactions memory memory.begin ℕ
memory_transactions = transactions_of ignore

abbrev pub memory_sqlite : SqliteStatements memory memory_transactions
memory_sqlite = record {
  claim_lem = λ conn c m now d v. record {
    at = λ w h. (h.0, ap (add c m) h.1, ap (λ (x : Db ℕ). if x.row c m then 0 else 1) h.1);
  };
  claim_many_lem = λ conn c ids now d v. insert_all_triple c ids d v;
  unclaim_lem = λ conn c m d u v. record { at = λ w h. (h.0, ap (remove c m) h.1, h.2) };
}

abbrev pub postgres_of :
    {App : Type 0} (store : List ℕ → App → App)
    → PgStatements (memory_of store) (transactions_of store)
postgres_of {App} store = record {
  set_lock_timeout_lem = λ conn value d v. record { at = λ w h. h };
  claim_lem = λ conn c m d v. record {
    at = λ w h. (h.0, ap (add c m) h.1, ap (λ (x : Db App). if x.row c m then 0 else 1) h.1);
  };
  claim_many_lem = λ conn c ids d v. insert_all_triple c ids d v;
  unclaim_lem = λ conn c m d u v. record { at = λ w h. (h.0, ap (remove c m) h.1, h.2) };
}

abbrev pub memory_postgres : PgStatements memory memory_transactions
memory_postgres = postgres_of ignore

abbrev pub memory_mysql : MysqlClaim memory memory_transactions
memory_mysql = record {
  timeout = λ conn w. w.timeout;
  saved = λ conn w. w.saved;
  set_lock_timeout_lem = λ conn n before d v. record { at = λ w h. (h.0, h.1, refl, ap some h.2) };
  restore_lock_timeout_lem =
      λ conn before d v. record { at = λ w h. (h.0, h.1, ap (λ o. value_or o w.timeout) h.2) };
  restore_keeps = λ conn d. record { at = λ w h. h };
  claim_lem = λ conn c m now before d v. record {
    at = λ w h.
        ((h.0, ap (add c m) h.1, h.2, h.3), ap (λ (x : Db ℕ). if x.row c m then 0 else 1) h.1);
  };
}

stamped-next_token :
    (stamps : List (ℕ × ConsumerId × MessageId)) (token : ℕ) (c : ConsumerId) (m : MessageId)
    → next_token stamps ≤ token
    → stamped stamps token c m ≡ false
stamped-next_token [] token c m h = refl
stamped-next_token ((t, i, n) ∷ stamps) token c m h =
    ground (arith, stamped-next_token stamps token c m)

stamped-stamp_all :
    (token : ℕ) (c : ConsumerId) (ids : List Str) (stamps : List (ℕ × ConsumerId × MessageId))
    (k : ConsumerId) (m : MessageId)
    → stamped (stamp_all token c ids stamps) token k m
      ≡ ((k == c && contains ids m.as_str) || stamped stamps token k m)
stamped-stamp_all token c [] stamps k m = ground arith
stamped-stamp_all token c (s ∷ ids) stamps k m =
    ground (arith, stamped-stamp_all token c ids stamps k m)

stamped-fresh_rows :
    (token : ℕ) (c : ConsumerId) (ids : List MessageId) (v : Db ℕ)
    (stamps : List (ℕ × ConsumerId × MessageId)) (k : ConsumerId) (m : MessageId)
    → stamped stamps token k m ≡ false
    → stamped
        (stamp_all token c (new_ids c v (map (λ (m : MessageId). m.as_str) ids)) stamps)
        token
        k
        m
      ≡ fresh_rows c ids v k m
stamped-fresh_rows token c ids v stamps k m h =
    let texts = map (λ (m : MessageId). m.as_str) ids in
    ground (
      arith,
      stamped-stamp_all token c (new_ids c v texts) stamps k m,
      contains-keep (λ i. not (v.row c (message_of i))) texts m.as_str,
      contains_text m ids,
    )

pub memory-MysqlBatch : MysqlBatch memory memory_transactions
memory-MysqlBatch = record {
  stamp = λ conn token w. stamped w.stamps token;
  random_lem = λ conn d v. record {
    at = λ w h.
        (h.0, h.1, fun_ext (λ k. fun_ext (λ m. stamped-next_token w.stamps _ k m (omega arith))));
  };
  set_lock_timeout_lem = λ conn n token d v b. record { at = λ w h. h };
  restore_lock_timeout_lem = λ conn token d v b. record { at = λ w h. h };
  restore_keeps = λ conn d. record { at = λ w h. h };
  claim_many_lem = λ conn c ids token d v. record {
    at = λ w h. (
      h.0,
      cc (h.1, rows_of ids),
      fun_ext (λ k. fun_ext (λ m.
          stamped-fresh_rows token c ids w.seen w.stamps k m (ap (λ f. f k m) h.2)
          ∙ ap (λ x. fresh_rows c ids x k m) h.1)),
    );
  };
  claimed_by_token_lem = λ conn c ids token d v b. record {
    at = λ w h. (
      h.0,
      h.1,
      λ j k.
          ground (
            arith,
            contains-keep (λ i. stamped w.stamps token c (message_of i))
                (map (λ (m : MessageId). m.as_str) ids) j.as_str,
            contains_text j ids,
          )
          ∙ ap (λ f. f c j) h.2,
    );
  };
}

-- The rows that are too old, and a statement that deletes them.
pub memory-PurgeStatement :
    (sql : String) (age : Bind) (batch : ℕ)
    → PurgeStatement
        (memory.execute_pool sql (age ∷ Bind.number batch ∷ []))
        batch
        (λ (w : World). w.stale)
memory-PurgeStatement sql age batch = record {
  run_lem = λ n. record { at = λ w h. (ap (min batch) h, ap (λ k. k - min batch k) h) };
}
