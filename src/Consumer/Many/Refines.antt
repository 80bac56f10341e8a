-- ===== src/Consumer/Many/Refines.antt =====
-- The loop of `process_many` over a backend that keeps its contract does what `Runs` says.
use txbox.Common.{
  ℕ, zero, suc, ◌≡◌, ◌≢◌, refl, sym, ap, ◌∙◌, subst, Option, none, some, true, List, [], ◌∷◌, ◌++◌,
  zip, map, ltb, if◌then◌else◌, arith,
}
use mathlib.Core.List.{append_assoc, append-nil}
use txbox.Consumer.{Consumer}
use txbox.Consumer.Many.{
  ProcessResult, count_fresh, skip_result, conclude, next_savepoint, handle_fresh, run_loop,
  run_batch,
}
use txbox.Consumer.Many.Steps.{Steps}
use txbox.Consumer.Many.Runs.{Turned, Runs}
use txbox.Error.{HandlerError, InboxError}
use txbox.Io.{Io, pure}
use txbox.Io.Triple.{
  Triple, Attempted, Triple-pure, Triple-bind, Triple-mono, Triple-fact, Triple-fix, Triple-attempt,
}
use txbox.Result.{Result, ok, err}
use txbox.Store.{Savepoints}
use txbox.Store.Contract.{Contract, SavepointContract, Db, answer, add, add_all, claim_each}
use txbox.Str.{Str}
use txbox.Types.{Claim, ConsumerId, MessageId, Outcome}

pending_suc : (n : ℕ) → ltb 0 (suc n) ≡ true
pending_suc n = ground arith

map-zip-claim_each :
    {App : Type 0} (c : ConsumerId) (ids : List MessageId) (v : Db App)
    → map (λ (e : MessageId × Claim). e.1) (zip ids (claim_each c ids v)) ≡ claim_each c ids v
unfolding zip
map-zip-claim_each c [] v = refl
map-zip-claim_each c (m ∷ ms) v = ap (λ ks. answer c v m ∷ ks) (map-zip-claim_each c ms (add c m v))

module _ {W E App T : Type 0} (c : Consumer W E) (p : Savepoints c.store) (k : Contract c.store App)
    (sk : SavepointContract c.store p App k)
    (handler : c.store.Conn → MessageId → Io W (HandlerError E) T)
    (Post : MessageId → Db App → T → Db App → Type 0) (Fail : MessageId → Type 0)
    (conn : c.store.Conn) (d : Db App) (Bad : W → Type 0)
    (st : Steps c p k sk handler Post Fail conn d Bad) where
  -- Between two turns: nothing is committed, and the savepoint is open if messages are pending.
  abbrev Ready : ℕ → W → Type 0
  Ready pending w =
      (k.committed w ≡ d) × (ltb 0 pending ≡ true → sk.marked conn w ≡ some (k.seen conn w))

  abbrev Broken : Option (InboxError E) → W → Type 0
  Broken _ w = Bad w

  next_savepoint_triple :
      (n : ℕ) (u v : Db App)
      → Triple
          (λ w. (k.committed w ≡ d) × (k.seen conn w ≡ v) × (sk.marked conn w ≡ some u))
          (next_savepoint c p conn n)
          (λ _ w. (k.seen conn w ≡ v) × Ready n w)
          Broken
  unfolding next_savepoint
  next_savepoint_triple zero u v =
      Triple-mono (st.release_lem u v) (λ w h. h) (λ _ w h. (h.1, (h.0, λ e. cc))) (λ x w h. h)
  next_savepoint_triple (suc n) u v = rw (pending_suc n) (
      Triple-mono (st.release_and_savepoint_lem u v) (λ w h. h)
        (λ _ w h. (h.1, (h.0, λ _. h.2 ∙ ap some (sym h.1)))) (λ x w h. h))

  conclude_triple :
      (m : MessageId) (failed : List Str) (v : Db App) (r : Result (HandlerError E) T)
      → Triple
          (Attempted
            (λ value w.
              (k.committed w ≡ d) × (sk.marked conn w ≡ some v) × Post m v value (k.seen conn w))
            (λ x w.
              (x ≡ none → Bad w)
              × (x ≢ none → (k.committed w ≡ d) × (sk.marked conn w ≡ some v) × Fail m))
            r)
          (conclude c p conn m failed r)
          (λ a w.
            (k.committed w ≡ d)
            × (sk.marked conn w ≡ some v)
            × Turned c.id Post Fail m failed v a.0 a.1 (k.seen conn w))
          Broken
  unfolding conclude
  conclude_triple m failed v (ok value) =
      Triple-pure (failed, ok (Outcome.processed value)) (λ w h. (h.0, h.1, (refl, h.2)))
  conclude_triple m failed v (err e) = Triple-fix (k.seen conn) (λ s.
      Triple-fact (λ w h. (h.0.1 (λ eq. cc)).2)
        (λ admitted.
          Triple-bind
            (Triple-mono (st.rollback_to_lem v s)
              (λ w h. ((h.0.1 (λ eq. cc)).0, h.1, (h.0.1 (λ eq. cc)).1)) (λ _ w h. h) (λ x w h. h))
            (λ _. Triple-bind (st.unclaim_lem m v v) (λ _.
              Triple-pure (m.as_str ∷ failed, err e) (λ w h. (h.0, h.2, (refl, h.1, admitted)))))))

  handle_fresh_triple :
      (m : MessageId) (n : ℕ) (failed : List Str) (v : Db App)
      → Triple
          (λ w. (k.seen conn w ≡ v) × Ready (suc n) w)
          (handle_fresh c p conn handler m (suc n) failed)
          (λ a w. (a.0 ≡ n) × Turned c.id Post Fail m failed v a.1 a.2 (k.seen conn w) × Ready n w)
          Broken
  unfolding handle_fresh
  handle_fresh_triple m n failed v =
      Triple-bind
        (Triple-mono {R = Broken} (Triple-attempt (st.handler_lem m v) (λ w h. h.0 refl))
          (λ w h. (h.1.0, h.0, h.1.1 (pending_suc n) ∙ ap some h.0)) (λ r w h. h) (λ x w h. h))
        (λ r. Triple-bind (conclude_triple m failed v r) (λ a. Triple-fix (k.seen conn) (λ u.
          Triple-fact (λ w h. subst (Turned c.id Post Fail m failed v a.0 a.1) h.1 h.0.2)
            (λ known.
              Triple-bind
                (Triple-mono (next_savepoint_triple n v u) (λ w h. (h.0.0, h.1, h.0.1)) (λ _ w h. h)
                  (λ x w h. h))
                (λ _.
                  Triple-pure (n, a.0, a.1)
                    (λ w h. (
                      refl,
                      subst (Turned c.id Post Fail m failed v a.0 a.1) (sym h.0) known,
                      h.1,
                    )))))))

  -- What the loop has reported, and that the rest of the batch ran from the contents `v`.
  abbrev Reported :
      List (MessageId × Claim)
      → List Str
      → Db App
      → List (ProcessResult E T)
      → List (ProcessResult E T)
      → W
      → Type 0
  Reported entries failed v results rs w =
      (new : List (ProcessResult E T)) × (rs ≡ results ++ new)
      × Runs c.id Post Fail entries failed v new (k.seen conn w)

  run_loop_triple :
      (entries : List (MessageId × Claim)) (n : ℕ) (failed : List Str)
      (results : List (ProcessResult E T)) (v : Db App)
      → n ≡ count_fresh (map (λ (e : MessageId × Claim). e.1) entries)
      → Triple
          (λ w. (k.seen conn w ≡ v) × Ready n w)
          (run_loop c p conn handler entries n failed results)
          (λ rs w. (k.committed w ≡ d) × Reported entries failed v results rs w)
          Broken
  unfolding run_loop count_fresh
  run_loop_triple [] n failed results v e =
      Triple-pure results (λ w h. (h.1.0, ([], sym (append-nil results), h.0)))
  run_loop_triple ((m, Claim.duplicate) ∷ entries) n failed results v e =
      Triple-mono (run_loop_triple entries n failed (results ++ (skip_result failed m ∷ [])) v e)
        (λ w h. h)
        (λ rs w h. (
          h.0,
          (
            skip_result failed m ∷ h.1.0,
            h.1.1 ∙ append_assoc results (skip_result failed m ∷ []) h.1.0,
            (refl, h.1.2),
          ),
        ))
        (λ x w h. h)
  run_loop_triple ((m, Claim.fresh) ∷ entries) zero failed results v e = absurd (omega arith)
  run_loop_triple ((m, Claim.fresh) ∷ entries) (suc n) failed results v e =
      Triple-bind (handle_fresh_triple m n failed v) (λ a. Triple-fix (k.seen conn) (λ u.
        Triple-fact (λ w h. subst (Turned c.id Post Fail m failed v a.1 a.2) h.1 h.0.1)
          (λ turned.
            Triple-fact (λ w h. h.0.0)
              (λ left.
                Triple-mono
                  (run_loop_triple entries a.0 a.1 (results ++ (a.2 ∷ [])) u (omega arith))
                  (λ w h. (h.1, rw left h.0.2))
                  (λ rs w h. (
                    h.0,
                    (
                      a.2 ∷ h.1.0,
                      h.1.1 ∙ append_assoc results (a.2 ∷ []) h.1.0,
                      (a.1, u, turned, h.1.2),
                    ),
                  ))
                  (λ x w h. h)))))

  open_savepoint :
      (n : ℕ) (v : Db App)
      → Triple
          (λ w. (k.committed w ≡ d) × (k.seen conn w ≡ v))
          (if ltb 0 n then p.savepoint conn else pure tt)
          (λ _ w. (k.seen conn w ≡ v) × Ready n w)
          Broken
  open_savepoint zero v = Triple-pure tt (λ w h. (h.1, (h.0, λ e. cc)))
  open_savepoint (suc n) v = rw (pending_suc n) (
      Triple-mono (st.savepoint_lem v) (λ w h. h)
        (λ _ w h. (h.1, (h.0, λ _. h.2 ∙ ap some (sym h.1)))) (λ x w h. h))

  pub run_batch_triple :
      (ids : List MessageId)
      → Triple
          (λ w. (k.committed w ≡ d) × (k.seen conn w ≡ d))
          (run_batch c p conn handler ids)
          (λ rs w.
            (k.committed w ≡ d)
            × Runs c.id Post Fail
                (zip ids (claim_each c.id ids d))
                []
                (add_all c.id ids d)
                rs
                (k.seen conn w))
          Broken
  unfolding run_batch
  run_batch_triple ids = Triple-bind (st.claim_many_lem ids) (λ claims.
      Triple-fact (λ w h. h.2)
        (λ answered.
          Triple-bind
            (Triple-mono (open_savepoint (count_fresh claims) (add_all c.id ids d))
              (λ w h. (h.0, h.1)) (λ _ w h. h) (λ x w h. h))
            (λ _.
              Triple-mono
                (run_loop_triple (zip ids claims) (count_fresh claims) [] [] (add_all c.id ids d) (
                  ap count_fresh (
                    subst (λ ks. ks ≡ map (λ (e : MessageId × Claim). e.1) (zip ids ks))
                      (sym answered) (sym (map-zip-claim_each c.id ids d)))))
                (λ w h. h) (λ rs w h. (h.0, rw (← answered, h.1.1) h.1.2)) (λ x w h. h))))
