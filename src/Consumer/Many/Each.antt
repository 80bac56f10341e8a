-- ===== src/Consumer/Many/Each.antt =====
-- What a batch leaves, told message by message: as one `process` for each, where a failure depends on
-- the message alone and an effect on the application's data.
use txbox.Common.{
  Bool, true, false, not, ◌&&◌, ◌||◌, ◌≡◌, refl, ap, ◌∙◌, List, [], ◌∷◌, zip, arith, contains,
  if◌then◌else◌,
}
use txbox.Consumer.Many.{ProcessResult}
use txbox.Consumer.Many.Acks.{Stepped, Turn-of_Runs}
use txbox.Consumer.Many.Runs.{Runs, Processed}
use txbox.Result.{ok, err}
use txbox.Store.Contract.{Db, answer, add, add_all, claim_each}
use txbox.Str.{Str, str_eq, str_beq_iff}
use txbox.Types.{
  Claim, ConsumerId, MessageId, Outcome, consumer_id_eq, message_id_eq, consumer_id_beq_iff,
  message_id_beq_iff,
}

-- A message that is handled turns the application's data by `effect`, and is not one that fails.
abbrev pub EffectPost :
    {App T : Type 0}
    → (MessageId → App → App)
    → (Str → Bool)
    → MessageId
    → Db App
    → T
    → Db App
    → Type 0
EffectPost effect fails m v value u =
    (u ≡ record v { app = effect m v.app }) × (fails m.as_str ≡ false)

abbrev pub EffectFail : (Str → Bool) → MessageId → Type 0
EffectFail fails m = fails m.as_str ≡ true

module _ {App : Type 0} (i : ConsumerId) (effect : MessageId → App → App) (fails : Str → Bool) where
  -- One message: nothing is done for one that is recorded, or that fails.
  abbrev pub one : MessageId → Db App → Db App
  one m x = if x.row i m || fails m.as_str then x else record (add i m x) { app = effect m x.app }

  abbrev pub each : List MessageId → Db App → Db App
  each [] x = x
  each (m ∷ ms) x = each ms (one m x)

  pub one-known : (m : MessageId) (x : Db App) → (x.row i m || fails m.as_str) ≡ true → one m x ≡ x
  one-known m x h = rw h refl

  pub one-new :
      (m : MessageId) (x : Db App)
      → (x.row i m || fails m.as_str) ≡ false
      → one m x ≡ record (add i m x) { app = effect m x.app }
  one-new m x h = rw h refl

-- The batch at `v` and the single messages at `x`, when the same ids have had their turn: those
-- recorded before, or of an earlier turn, are in `before`, and `waiting` are claimed for the batch.
record Together {App : Type 0} (i : ConsumerId) (fails : Str → Bool) (waiting : List MessageId)
    (before : Db App) (failed : List Str) (v x : Db App) : Type 0 where
  app_lem : v.app ≡ x.app
  single_lem : (j : MessageId) → x.row i j ≡ (before.row i j && not (contains failed j.as_str))
  batch_lem :
      (j : MessageId) → v.row i j ≡ (x.row i j || (contains waiting j && not (before.row i j)))
  failed_lem :
      (j : MessageId)
      → contains failed j.as_str ≡ true
      → (before.row i j ≡ true) × (fails j.as_str ≡ true)

module _ {E App T : Type 0} (i : ConsumerId) (effect : MessageId → App → App)
    (fails : Str → Bool) where
  step :
      (a : Claim) (m : MessageId) (ms : List MessageId) (before : Db App) (failed : List Str)
      (v x : Db App) (failed' : List Str) (r : ProcessResult E T) (u : Db App)
      → a ≡ answer i before m
      → Together i fails (m ∷ ms) before failed v x
      → Stepped i (EffectPost effect fails) (EffectFail fails) a m failed v failed' r u
      → Together i fails ms (add i m before) failed' u (one i effect fails m x)
  step Claim.duplicate m ms before failed v x failed' r u q t s =
      rw
        (s.0, s.1, one-known i effect fails m x (ground (arith, q, t.single_lem m, t.failed_lem m)))
        (record {
          app_lem = t.app_lem;
          single_lem = λ j. ground (arith, t.single_lem j, message_id_beq_iff j m, q);
          batch_lem = λ j.
              ground (arith, t.batch_lem j, message_id_beq_iff j m, q, consumer_id_beq_iff i i);
          failed_lem = λ j h. ground (arith, t.failed_lem j h);
        })
  step Claim.fresh m ms before failed v x failed' (ok (Outcome.processed y)) u q t s =
      rw (s.0, s.1.0, one-new i effect fails m x (ground (arith, q, t.single_lem m, s.1.1)))
        (record {
          app_lem = ap (effect m) t.app_lem;
          single_lem = λ j. ground (
            arith,
            t.single_lem j,
            t.failed_lem j,
            message_id_beq_iff j m,
            q,
            consumer_id_beq_iff i i,
          );
          batch_lem = λ j. ground (
            arith,
            t.batch_lem j,
            t.single_lem j,
            message_id_beq_iff j m,
            q,
            consumer_id_beq_iff i i,
          );
          failed_lem = λ j h. ground (arith, t.failed_lem j h);
        })
  step Claim.fresh m ms before failed v x failed' (ok Outcome.duplicate) u q t s = absurd s
  step Claim.fresh m ms before failed v x failed' (err y) u q t s =
      rw (s.0, s.1, one-known i effect fails m x (ground (arith, s.2)))
        (record {
          app_lem = t.app_lem;
          single_lem = λ j. ground (
            arith,
            t.single_lem j,
            t.failed_lem j,
            message_id_beq_iff j m,
            q,
            consumer_id_beq_iff i i,
            str_beq_iff j.as_str m.as_str,
          );
          batch_lem = λ j. ground (
            arith,
            t.batch_lem j,
            t.single_lem j,
            message_id_beq_iff j m,
            q,
            consumer_id_beq_iff i i,
          );
          failed_lem = λ j h.
              ground (arith, t.failed_lem j, message_id_beq_iff j m, consumer_id_beq_iff i i, s.2);
        })

  turns :
      (ids : List MessageId) (before : Db App) (failed : List Str) (v x : Db App)
      (rs : List (ProcessResult E T)) (v' : Db App)
      → Together i fails ids before failed v x
      → Runs i
          (EffectPost effect fails)
          (EffectFail fails)
          (zip ids (claim_each i ids before))
          failed
          v
          rs
          v'
      → (v'.app ≡ (each i effect fails ids x).app)
        × ((j : MessageId) → v'.row i j ≡ (each i effect fails ids x).row i j)
  unfolding zip
  turns [] before failed v x [] v' t h = (
    ap (λ (y : Db App). y.app) h ∙ t.app_lem,
    λ j. ap (λ (y : Db App). y.row i j) h ∙ t.batch_lem j ∙ ground arith,
  )
  turns [] before failed v x (r ∷ rs) v' t h = absurd h
  turns (m ∷ ms) before failed v x rs v' t h =
      let k =
        Turn-of_Runs i (EffectPost effect fails) (EffectFail fails) (answer i before m) m
          (zip ms (claim_each i ms (add i m before))) failed v rs v' h in
      turns ms (add i m before) k.failed' k.u (one i effect fails m x) k.rest v'
        (step (answer i before m) m ms before failed v x k.failed' k.r k.u refl t k.stepped) k.runs

  pub Processed-each :
      (ids : List MessageId) (d : Db App) (rs : List (ProcessResult E T)) (d' : Db App)
      → Processed i (EffectPost effect fails) (EffectFail fails) ids d rs d'
      → (d'.app ≡ (each i effect fails ids d).app)
        × ((j : MessageId) → d'.row i j ≡ (each i effect fails ids d).row i j)
  Processed-each ids d rs d' h =
      turns ids d [] (add_all i ids d) d rs d'
        (record {
          app_lem = refl;
          single_lem = λ j. ground arith;
          batch_lem = λ j. ground (arith, consumer_id_beq_iff i i);
          failed_lem = λ j h. cc;
        })
        h
