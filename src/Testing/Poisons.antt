-- ===== src/Testing/Poisons.antt =====
-- What a batch does whose handler claims under another consumer, and fails on the poisons.
use txbox.Common.{
  Bool, true, false, not, ◌&&◌, ◌||◌, ◌≡◌, refl, ap, ◌∙◌, List, [], ◌∷◌, zip, arith, contains, ◌==◌,
}
use txbox.Consumer.Many.{ProcessResult, skip_result}
use txbox.Consumer.Many.Acks.{Aligned, is_ok, Stepped, Turn, Turn-of_Runs}
use txbox.Consumer.Many.Runs.{Runs, Processed}
use txbox.Result.{ok, err}
use txbox.Store.Contract.{Db, answer, add, add_all, claim_each}
use txbox.Str.{Str, str_eq}
use txbox.Testing.Batches.{is_duplicate}
use txbox.Types.{
  Claim, ConsumerId, MessageId, Outcome, consumer_id_eq, message_id_eq, consumer_id_beq_iff,
  message_id_beq_iff,
}

-- A message that is handled leaves a row of the other consumer, and is no poison.
abbrev pub PoisonPost :
    {App : Type 0} → ConsumerId → (Str → Bool) → MessageId → Db App → Unit {0} → Db App → Type 0
PoisonPost e poisoned m v value u = (u ≡ add e m v) × (poisoned m.as_str ≡ false)

abbrev pub PoisonFail : (Str → Bool) → MessageId → Type 0
PoisonFail poisoned m = poisoned m.as_str ≡ true

-- The result that a message is to have, in a batch on the contents `d`.
pub record IsExpected {E App : Type 0} (i : ConsumerId) (poisoned : Str → Bool) (d : Db App)
    (m : MessageId) (r : ProcessResult E (Unit {0})) : Type 0 where
  pub ok_lem : is_ok r ≡ (d.row i m || not (poisoned m.as_str))
  pub known_lem : d.row i m ≡ true → is_duplicate r ≡ true

-- Of the messages that had their turn, the poisons have failed, those recorded before excepted.
record IsTracked {App : Type 0} (i : ConsumerId) (poisoned : Str → Bool) (d before : Db App)
    (failed : List Str) : Type 0 where
  row_lem : (j : MessageId) → d.row i j ≡ true → before.row i j ≡ true
  failed_lem :
      (j : MessageId)
      → contains failed j.as_str ≡ (poisoned j.as_str && before.row i j && not (d.row i j))

module _ {E App : Type 0} (i e : ConsumerId) (poisoned : Str → Bool) where
  step_failed :
      (a : Claim) (m : MessageId) (d before : Db App) (failed : List Str) (v : Db App)
      (failed' : List Str) (r : ProcessResult E (Unit {0})) (u : Db App)
      → a ≡ answer i before m
      → IsTracked i poisoned d before failed
      → Stepped i (PoisonPost e poisoned) (PoisonFail poisoned) a m failed v failed' r u
      → IsTracked i poisoned d (add i m before) failed'
  step_failed Claim.duplicate m d before failed v failed' r u q t s = record {
    row_lem = λ j h. ground (arith, t.row_lem j);
    failed_lem = λ j. rw s.0 (ground (arith, t.failed_lem j, message_id_beq_iff j m, q));
  }
  step_failed Claim.fresh m d before failed v failed' (ok (Outcome.processed x)) u q t s = record {
    row_lem = λ j h. ground (arith, t.row_lem j);
    failed_lem = λ j. rw s.0 (ground (arith, t.failed_lem j, message_id_beq_iff j m, q, s.1.1));
  }
  step_failed Claim.fresh m d before failed v failed' (ok Outcome.duplicate) u q t s = absurd s
  step_failed Claim.fresh m d before failed v failed' (err x) u q t s = record {
    row_lem = λ j h. ground (arith, t.row_lem j);
    failed_lem = λ j. rw s.0 (
        ground (
          arith,
          t.failed_lem j,
          t.row_lem j,
          message_id_beq_iff j m,
          consumer_id_beq_iff i i,
          q,
          s.2,
        ));
  }

  step_result :
      (a : Claim) (m : MessageId) (d before : Db App) (failed : List Str) (v : Db App)
      (failed' : List Str) (r : ProcessResult E (Unit {0})) (u : Db App)
      → a ≡ answer i before m
      → IsTracked i poisoned d before failed
      → Stepped i (PoisonPost e poisoned) (PoisonFail poisoned) a m failed v failed' r u
      → IsExpected i poisoned d m r
  unfolding skip_result
  step_result Claim.duplicate m d before failed v failed' r u q t s = record {
    ok_lem = rw s.2 (ground (arith, t.failed_lem m, q));
    known_lem = λ h. rw s.2 (ground (arith, t.failed_lem m, h));
  }
  step_result Claim.fresh m d before failed v failed' (ok (Outcome.processed x)) u q t s = record {
    ok_lem = ground (arith, s.1.1);
    known_lem = λ h. ground (arith, t.row_lem m, q);
  }
  step_result Claim.fresh m d before failed v failed' (ok Outcome.duplicate) u q t s = absurd s
  step_result Claim.fresh m d before failed v failed' (err x) u q t s = record {
    ok_lem = ground (arith, s.2, t.row_lem m, q);
    known_lem = λ h. ground (arith, t.row_lem m, q);
  }

  -- The rows of the other consumer.
  step_effect :
      (a : Claim) (m : MessageId) (before : Db App) (failed : List Str) (v : Db App)
      (failed' : List Str) (r : ProcessResult E (Unit {0})) (u : Db App)
      → a ≡ answer i before m
      → (i == e) ≡ false
      → Stepped i (PoisonPost e poisoned) (PoisonFail poisoned) a m failed v failed' r u
      → (j : MessageId)
      → u.row e j ≡ (v.row e j || (j == m && not (before.row i m) && not (poisoned m.as_str)))
  step_effect Claim.duplicate m before failed v failed' r u q apart s j =
      ap (λ (x : Db App). x.row e j) s.1 ∙ ground (arith, q)
  step_effect Claim.fresh m before failed v failed' (ok (Outcome.processed x)) u q apart s j =
      ap (λ (x : Db App). x.row e j) s.1.0 ∙ ground (arith, q, s.1.1, consumer_id_beq_iff e e)
  step_effect Claim.fresh m before failed v failed' (ok Outcome.duplicate) u q apart s j = absurd s
  step_effect Claim.fresh m before failed v failed' (err x) u q apart s j =
      ap (λ (x : Db App). x.row e j) s.1
      ∙ ground (arith, q, s.2, apart, consumer_id_beq_iff i e, consumer_id_beq_iff e i)

  abbrev Ran :
      List MessageId
      → Db App
      → List Str
      → Db App
      → List (ProcessResult E (Unit {0}))
      → Db App
      → Type 0
  Ran ids before failed v rs v' =
      Runs i (PoisonPost e poisoned) (PoisonFail poisoned) (zip ids (claim_each i ids before))
        failed v rs v'

  abbrev turn :
      (m : MessageId) (ms : List MessageId) (before : Db App) (failed : List Str) (v : Db App)
      (rs : List (ProcessResult E (Unit {0}))) (v' : Db App)
      → Ran (m ∷ ms) before failed v rs v'
      → Turn i
          (PoisonPost e poisoned)
          (PoisonFail poisoned)
          (answer i before m)
          m
          (zip ms (claim_each i ms (add i m before)))
          failed
          v
          rs
          v'
  unfolding zip
  turn m ms before failed v rs v' h =
      Turn-of_Runs i (PoisonPost e poisoned) (PoisonFail poisoned) (answer i before m) m
        (zip ms (claim_each i ms (add i m before))) failed v rs v' h

  Runs-IsExpected :
      (ids : List MessageId) (d before : Db App) (failed : List Str) (v : Db App)
      (rs : List (ProcessResult E (Unit {0}))) (v' : Db App)
      → IsTracked i poisoned d before failed
      → Ran ids before failed v rs v'
      → Aligned (IsExpected i poisoned d) ids rs
  unfolding zip
  Runs-IsExpected [] d before failed v [] v' k h = tt
  Runs-IsExpected [] d before failed v (r ∷ rs) v' k h = absurd h
  Runs-IsExpected (m ∷ ms) d before failed v rs v' k h =
      let t = turn m ms before failed v rs v' h in
      rw t.results (
        step_result (answer i before m) m d before failed v t.failed' t.r t.u refl k t.stepped,
        Runs-IsExpected ms d (add i m before) t.failed' t.u t.rest v'
            (step_failed (answer i before m) m d before failed v t.failed' t.r t.u refl k t.stepped)
            t.runs,
      )

  Runs-effect :
      (ids : List MessageId) (before : Db App) (failed : List Str) (v : Db App)
      (rs : List (ProcessResult E (Unit {0}))) (v' : Db App)
      → (i == e) ≡ false
      → Ran ids before failed v rs v'
      → (j : MessageId)
      → v'.row e j
        ≡ (v.row e j || (contains ids j && not (before.row i j) && not (poisoned j.as_str)))
  unfolding zip
  Runs-effect [] before failed v [] v' apart h j = ap (λ (x : Db App). x.row e j) h ∙ ground arith
  Runs-effect [] before failed v (r ∷ rs) v' apart h j = absurd h
  Runs-effect (m ∷ ms) before failed v rs v' apart h j =
      let t = turn m ms before failed v rs v' h in
      ground (
        arith,
        Runs-effect ms (add i m before) t.failed' t.u t.rest v' apart t.runs j,
        step_effect (answer i before m) m before failed v t.failed' t.r t.u refl apart t.stepped j,
        message_id_beq_iff j m,
        consumer_id_beq_iff i i,
      )

  -- A batch on the contents `d` gives each message the result that it is to have, and leaves a row of
  -- the other consumer for each that was not recorded and is no poison.
  pub Processed-IsExpected :
      (ids : List MessageId) (d : Db App) (rs : List (ProcessResult E (Unit {0}))) (d' : Db App)
      → Processed i (PoisonPost e poisoned) (PoisonFail poisoned) ids d rs d'
      → Aligned (IsExpected i poisoned d) ids rs
  Processed-IsExpected ids d rs d' h =
      Runs-IsExpected ids d d [] (add_all i ids d) rs d'
        (record { row_lem = λ j h. h; failed_lem = λ j. ground arith }) h

  pub Processed-effect :
      (ids : List MessageId) (d : Db App) (rs : List (ProcessResult E (Unit {0}))) (d' : Db App)
      → (i == e) ≡ false
      → Processed i (PoisonPost e poisoned) (PoisonFail poisoned) ids d rs d'
      → (j : MessageId)
      → d'.row e j ≡ (d.row e j || (contains ids j && not (d.row i j) && not (poisoned j.as_str)))
  Processed-effect ids d rs d' apart h j =
      Runs-effect ids d [] (add_all i ids d) rs d' apart h j
      ∙ ground (arith, apart, consumer_id_beq_iff i e, consumer_id_beq_iff e i)

  -- The rows of all other consumers stand.
  step_other :
      (a : Claim) (m : MessageId) (failed : List Str) (v : Db App) (failed' : List Str)
      (r : ProcessResult E (Unit {0})) (u : Db App)
      → Stepped i (PoisonPost e poisoned) (PoisonFail poisoned) a m failed v failed' r u
      → (o : ConsumerId) (j : MessageId) → contains (i ∷ e ∷ []) o ≡ false
      → u.row o j ≡ v.row o j
  step_other Claim.duplicate m failed v failed' r u s o j h = ap (λ (x : Db App). x.row o j) s.1
  step_other Claim.fresh m failed v failed' (ok (Outcome.processed x)) u s o j h =
      ap (λ (x : Db App). x.row o j) s.1.0 ∙ ground arith
  step_other Claim.fresh m failed v failed' (ok Outcome.duplicate) u s o j h = absurd s
  step_other Claim.fresh m failed v failed' (err x) u s o j h =
      ap (λ (x : Db App). x.row o j) s.1 ∙ ground arith

  Runs-other :
      (ids : List MessageId) (before : Db App) (failed : List Str) (v : Db App)
      (rs : List (ProcessResult E (Unit {0}))) (v' : Db App)
      → Ran ids before failed v rs v'
      → (o : ConsumerId) (j : MessageId) → contains (i ∷ e ∷ []) o ≡ false
      → v'.row o j ≡ v.row o j
  unfolding zip
  Runs-other [] before failed v [] v' h o j k = ap (λ (x : Db App). x.row o j) h
  Runs-other [] before failed v (r ∷ rs) v' h o j k = absurd h
  Runs-other (m ∷ ms) before failed v rs v' h o j k =
      let t = turn m ms before failed v rs v' h in
      Runs-other ms (add i m before) t.failed' t.u t.rest v' t.runs o j k
      ∙ step_other (answer i before m) m failed v t.failed' t.r t.u t.stepped o j k

  pub Processed-other :
      (ids : List MessageId) (d : Db App) (rs : List (ProcessResult E (Unit {0}))) (d' : Db App)
      → Processed i (PoisonPost e poisoned) (PoisonFail poisoned) ids d rs d'
      → (o : ConsumerId) (j : MessageId) → contains (i ∷ e ∷ []) o ≡ false
      → d'.row o j ≡ d.row o j
  Processed-other ids d rs d' h o j k =
      Runs-other ids d [] (add_all i ids d) rs d' h o j k ∙ ground arith
