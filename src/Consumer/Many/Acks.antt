-- ===== src/Consumer/Many/Acks.antt =====
-- What the results of `process_many` tell a broker: a message may be acknowledged exactly if it is
-- recorded.
use txbox.Common.{
  Bool, true, false, not, ◌&&◌, ◌||◌, ◌≡◌, refl, ap, suc, length, ◌∙◌, subst, List, [], ◌∷◌, zip,
  arith, contains, ◌==◌, if◌then◌else◌,
}
use txbox.Consumer.Many.{ProcessResult, skip_result}
use txbox.Consumer.Many.Runs.{Turned, Runs, Processed}
use txbox.Result.{ok, err}
use txbox.Store.Contract.{Db, answer, add, add_all, claim_each}
use txbox.Str.{Str, str_eq}
use txbox.Types.{
  Claim, ConsumerId, MessageId, Outcome, consumer_id_eq, message_id_eq, consumer_id_beq_iff,
  message_id_beq_iff,
}

-- The broker may acknowledge: processed now, or before.
abbrev pub is_ok : {E T : Type 0} → ProcessResult E T → Bool
is_ok (ok _) = true
is_ok (err _) = false

-- As many results as ids, and `P` of each id with its result.
abbrev pub Aligned :
    {E T : Type 0}
    → (MessageId → ProcessResult E T → Type 0)
    → List MessageId
    → List (ProcessResult E T)
    → Type 0
Aligned P [] [] = Unit
Aligned P [] (r ∷ rs) = ⊥
Aligned P (m ∷ ms) [] = ⊥
Aligned P (m ∷ ms) (r ∷ rs) = P m r × Aligned P ms rs

-- Before each turn: of the ids recorded before (`before`) or waiting for their turn (`waiting`),
-- those are recorded that did not fail; and what failed had its turn.
record IsClaimed {App : Type 0} (i : ConsumerId) (waiting : List MessageId) (before : Db App)
    (failed : List Str) (v : Db App) : Type 0 where
  row_lem :
      (j : MessageId)
      → v.row i j ≡ (not (contains failed j.as_str) && (before.row i j || contains waiting j))
  failed_lem : (j : MessageId) → contains failed j.as_str ≡ true → before.row i j ≡ true

module _ {E App T : Type 0} (i : ConsumerId) (Post : MessageId → Db App → T → Db App → Type 0)
    (Fail : MessageId → Type 0) where
  -- One turn, fresh or not.
  abbrev pub Stepped :
      Claim → MessageId → List Str → Db App → List Str → ProcessResult E T → Db App → Type 0
  Stepped Claim.duplicate m failed v failed' r u =
      (failed' ≡ failed) × (u ≡ v) × (r ≡ skip_result failed m)
  Stepped Claim.fresh m failed v failed' r u = Turned i Post Fail m failed v failed' r u

  pub record Turn (a : Claim) (m : MessageId) (entries : List (MessageId × Claim))
      (failed : List Str) (v : Db App) (rs : List (ProcessResult E T)) (v' : Db App) : Type 0 where
    pub r : ProcessResult E T
    pub rest : List (ProcessResult E T)
    pub failed' : List Str
    pub u : Db App
    pub results : rs ≡ r ∷ rest
    pub stepped : Stepped a m failed v failed' r u
    pub runs : Runs i Post Fail entries failed' u rest v'

  pub Turn-of_Runs :
      (a : Claim) (m : MessageId) (entries : List (MessageId × Claim)) (failed : List Str)
      (v : Db App) (rs : List (ProcessResult E T)) (v' : Db App)
      → Runs i Post Fail ((m, a) ∷ entries) failed v rs v'
      → Turn a m entries failed v rs v'
  Turn-of_Runs Claim.duplicate m entries failed v [] v' h = absurd h
  Turn-of_Runs Claim.duplicate m entries failed v (r ∷ rs) v' h = record {
    r = r;
    rest = rs;
    failed' = failed;
    u = v;
    results = refl;
    stepped = (refl, refl, h.0);
    runs = h.1;
  }
  Turn-of_Runs Claim.fresh m entries failed v [] v' h = absurd h
  Turn-of_Runs Claim.fresh m entries failed v (r ∷ rs) v' h = record {
    r = r;
    rest = rs;
    failed' = h.0;
    u = h.1;
    results = refl;
    stepped = h.2;
    runs = h.3;
  }

  module _
      (keeps : (m : MessageId) (v : Db App) (value : T) (u : Db App)
        → Post m v value u
        → (j : MessageId) → u.row i j ≡ v.row i j) where
    -- The rows of the other messages stand through a turn; so does that of a message claimed before.
    Turned-row :
        (m : MessageId) (failed : List Str) (v : Db App) (failed' : List Str)
        (r : ProcessResult E T) (u : Db App)
        → Turned i Post Fail m failed v failed' r u
        → (j : MessageId)
        → u.row i j ≡ (if is_ok r then v.row i j else (if j == m then false else v.row i j))
    Turned-row m failed v failed' (ok (Outcome.processed value)) u h j = keeps m v value u h.1 j
    Turned-row m failed v failed' (ok Outcome.duplicate) u h j = absurd h
    Turned-row m failed v failed' (err e) u h j =
        ap (λ (x : Db App). x.row i j) h.1 ∙ ground (arith, consumer_id_beq_iff i i)

    Turned-failed :
        (m : MessageId) (failed : List Str) (v : Db App) (failed' : List Str)
        (r : ProcessResult E T) (u : Db App)
        → Turned i Post Fail m failed v failed' r u
        → (j : Str)
        → contains failed' j
          ≡ (if is_ok r then contains failed j else (j == m.as_str || contains failed j))
    Turned-failed m failed v failed' (ok (Outcome.processed value)) u h j =
        ap (λ f. contains f j) h.0
    Turned-failed m failed v failed' (ok Outcome.duplicate) u h j = absurd h
    Turned-failed m failed v failed' (err e) u h j = ap (λ f. contains f j) h.0

    Stepped-IsClaimed :
        (a : Claim) (m : MessageId) (ms : List MessageId) (before : Db App) (failed : List Str)
        (v : Db App) (failed' : List Str) (r : ProcessResult E T) (u : Db App)
        → a ≡ answer i before m
        → IsClaimed i (m ∷ ms) before failed v
        → Stepped a m failed v failed' r u
        → IsClaimed i ms (add i m before) failed' u
    Stepped-IsClaimed Claim.duplicate m ms before failed v failed' r u e h s = record {
      row_lem = λ j.
          rw (s.0, s.1)
            (ground (arith, h.row_lem j, message_id_beq_iff j m, consumer_id_beq_iff i i));
      failed_lem =
          λ j k. ground (arith, h.failed_lem j (subst (λ f. contains f j.as_str ≡ true) s.0 k));
    }
    Stepped-IsClaimed Claim.fresh m ms before failed v failed' r u e h s = record {
      row_lem = λ j. ground (
        arith,
        Turned-row m failed v failed' r u s j,
        Turned-failed m failed v failed' r u s j.as_str,
        h.row_lem j,
        message_id_beq_iff j m,
        consumer_id_beq_iff i i,
        h.failed_lem j,
      );
      failed_lem = λ j k. ground (
        arith,
        Turned-failed m failed v failed' r u s j.as_str,
        h.failed_lem j,
        consumer_id_beq_iff i i,
      );
    }

    Stepped-row :
        (a : Claim) (m : MessageId) (before : Db App) (failed : List Str) (v : Db App)
        (failed' : List Str) (r : ProcessResult E T) (u : Db App) (j : MessageId)
        → a ≡ answer i before m
        → before.row i j ≡ true
        → Stepped a m failed v failed' r u
        → u.row i j ≡ v.row i j
    Stepped-row Claim.duplicate m before failed v failed' r u j e k s =
        ap (λ (x : Db App). x.row i j) s.1
    Stepped-row Claim.fresh m before failed v failed' r u j e k s =
        ground (arith, Turned-row m failed v failed' r u s j, message_id_beq_iff j m)

    Stepped-ack :
        (a : Claim) (m : MessageId) (ms : List MessageId) (before : Db App) (failed : List Str)
        (v : Db App) (failed' : List Str) (r : ProcessResult E T) (u : Db App)
        → a ≡ answer i before m
        → IsClaimed i (m ∷ ms) before failed v
        → Stepped a m failed v failed' r u
        → u.row i m ≡ is_ok r
    unfolding skip_result
    Stepped-ack Claim.duplicate m ms before failed v failed' r u e h s =
        rw (s.1, s.2) (ground (arith, h.row_lem m))
    Stepped-ack Claim.fresh m ms before failed v failed' r u e h s = ground (
      arith,
      Turned-row m failed v failed' r u s m,
      h.row_lem m,
      h.failed_lem m,
      message_id_beq_iff m m,
    )

    -- A message that was recorded before keeps its row through the turns of the others.
    Runs-row :
        (ids : List MessageId) (before : Db App) (failed : List Str) (v : Db App)
        (rs : List (ProcessResult E T)) (v' : Db App) (j : MessageId)
        → before.row i j ≡ true
        → Runs i Post Fail (zip ids (claim_each i ids before)) failed v rs v'
        → v'.row i j ≡ v.row i j
    unfolding zip
    Runs-row [] before failed v [] v' j k h = ap (λ (x : Db App). x.row i j) h
    Runs-row [] before failed v (r ∷ rs) v' j k h = absurd h
    Runs-row (m ∷ ms) before failed v rs v' j k h =
        let t =
          Turn-of_Runs (answer i before m) m (zip ms (claim_each i ms (add i m before))) failed v rs
            v' h in
        Runs-row ms (add i m before) t.failed' t.u t.rest v' j (ground (arith, k)) t.runs
        ∙ Stepped-row (answer i before m) m before failed v t.failed' t.r t.u j refl k t.stepped

    Runs-acks :
        (ids : List MessageId) (before : Db App) (failed : List Str) (v : Db App)
        (rs : List (ProcessResult E T)) (v' : Db App)
        → IsClaimed i ids before failed v
        → Runs i Post Fail (zip ids (claim_each i ids before)) failed v rs v'
        → Aligned (λ m r. v'.row i m ≡ is_ok r) ids rs
    unfolding zip
    Runs-acks [] before failed v [] v' c h = tt
    Runs-acks [] before failed v (r ∷ rs) v' c h = absurd h
    Runs-acks (m ∷ ms) before failed v rs v' c h =
        let a = answer i before m in
        let t = Turn-of_Runs a m (zip ms (claim_each i ms (add i m before))) failed v rs v' h in
        rw t.results (
          (Runs-row ms (add i m before) t.failed' t.u t.rest v' m
                (ground (arith, consumer_id_beq_iff i i, message_id_beq_iff m m)) t.runs
              ∙ Stepped-ack a m ms before failed v t.failed' t.r t.u refl c t.stepped),
          Runs-acks ms (add i m before) t.failed' t.u t.rest v'
              (Stepped-IsClaimed a m ms before failed v t.failed' t.r t.u refl c t.stepped) t.runs,
        )

    -- Of a processed batch there is one result for each id, in order, and a message is recorded at
    -- the end exactly if its result is not an error. So a failure is never acknowledged, and a
    -- message is never lost by a repeat of it in the batch.
    pub Processed-acks :
        (ids : List MessageId) (d : Db App) (rs : List (ProcessResult E T)) (d' : Db App)
        → Processed i Post Fail ids d rs d'
        → Aligned (λ m r. d'.row i m ≡ is_ok r) ids rs
    Processed-acks ids d rs d' h =
        Runs-acks ids d [] (add_all i ids d) rs d'
          (record {
            row_lem = λ j. ground (arith, consumer_id_beq_iff i i);
            failed_lem = λ j k. cc;
          })
          h

  -- A run gives one result for each of its entries.
  length-Runs :
      (ids : List MessageId) (before : Db App) (failed : List Str) (v : Db App)
      (rs : List (ProcessResult E T)) (v' : Db App)
      → Runs i Post Fail (zip ids (claim_each i ids before)) failed v rs v'
      → length rs ≡ length ids
  unfolding zip
  length-Runs [] before failed v [] v' h = refl
  length-Runs [] before failed v (r ∷ rs) v' h = absurd h
  length-Runs (m ∷ ms) before failed v rs v' h =
      let t =
        Turn-of_Runs (answer i before m) m (zip ms (claim_each i ms (add i m before))) failed v rs
          v' h in
      rw t.results (ap suc (length-Runs ms (add i m before) t.failed' t.u t.rest v' t.runs))

  pub length-Processed :
      (ids : List MessageId) (d : Db App) (rs : List (ProcessResult E T)) (d' : Db App)
      → Processed i Post Fail ids d rs d'
      → length rs ≡ length ids
  length-Processed ids d rs d' h = length-Runs ids d [] (add_all i ids d) rs d' h
