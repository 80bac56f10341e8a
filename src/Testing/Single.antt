-- ===== src/Testing/Single.antt =====
-- The check of `claim_many` against single claims.
use txbox.Common.{true, ◌≡◌, refl, ◌∙◌, sym, ap, subst, List, [], ◌∷◌, contains, arith, All}
use txbox.Consumer.{consumer, claim_many, begin, commit}
use txbox.Consumer.Claims.{claim_many-Returns}
use txbox.Io.{or_drop}
use txbox.Io.Triple.{Triple-pure, Triple-mono, Triple-fact, Triple-bind, Triple-map_err}
use txbox.Store.{InboxStore}
use txbox.Store.Contract.{Contract, Db, add, add_all, claim_each}
use txbox.Store.Reliable.{Reliable}
use txbox.Str.{Str, str, len, is_whitespace, str_eq, str_beq_iff}
use txbox.Testing.{Run, expecting}
use txbox.Testing.Checks.{claim_many_matches_single_claims, commits_ids, claims_beq}
use txbox.Testing.Accepted.{accepts-IsMessage}
use txbox.Testing.Ids.{claim_new_triple}
use txbox.Testing.Names.{IsRun, IsCheck, scoped_consumer}
use txbox.Testing.Probes.{
  Check, Check-expecting, Check-or_drop, IsMessage, with_assert, with_message, with_consumer,
  with_probe,
}
use txbox.Testing.Processes.{Others, IsNew}
use txbox.Types.{
  Claim, claim_eq, ConsumerId, MessageId, consumer_id_eq, message_id_eq, consumer_id_beq_iff,
}

many-IsCheck : IsCheck (str "claim-many")
unfolding is_whitespace len
many-IsCheck = record { not_blank = refl; ends_clean = refl; short = omega arith }

a-IsMessage : IsMessage (str "a")
unfolding is_whitespace len
a-IsMessage = accepts-IsMessage _ refl

b-IsMessage : IsMessage (str "b")
unfolding is_whitespace len
b-IsMessage = accepts-IsMessage _ refl

c-IsMessage : IsMessage (str "c")
unfolding is_whitespace len
c-IsMessage = accepts-IsMessage _ refl

abbrev msg : Str → MessageId
msg id = record { as_str = id }

-- c, b, a, c
abbrev batch : List MessageId
batch = msg (str "c") ∷ msg (str "b") ∷ msg (str "a") ∷ msg (str "c") ∷ []

-- Where only "b" is known, the batch is answered so.
claim_each_lem :
    {App : Type 0} (c : ConsumerId) (d : Db App)
    → IsNew c d
    → claims_beq
        (claim_each c batch (add c (msg (str "b")) d))
        (Claim.fresh ∷ Claim.duplicate ∷ Claim.fresh ∷ Claim.duplicate ∷ [])
      ≡ true
claim_each_lem c d new =
    ground (arith, new (msg (str "a")), new (msg (str "c")), consumer_id_beq_iff c c)

committed_lem :
    {App : Type 0} (c : ConsumerId) (d : Db App) (id : Str)
    → contains (str "a" ∷ str "c" ∷ []) id ≡ true
    → (add_all c batch (add c (msg (str "b")) d)).row c (msg id) ≡ true
committed_lem c d id h =
    ground (arith, consumer_id_beq_iff c c, str_beq_iff id (str "a"), str_beq_iff id (str "c"))

batch-Others :
    {App : Type 0} (c : ConsumerId) (d : Db App)
    → Others (c ∷ []) d (add_all c batch (add c (msg (str "b")) d))
batch-Others c d j n o = ground arith

module _ {W E App : Type 0} (s : InboxStore W E) (k : Contract s App) (Faulty : Type 0)
    (f : Reliable s Faulty) where
  -- The batch, answered and committed.
  batch_triple :
      (tx : s.Tx) (c : ConsumerId) (ids : List MessageId) (d : Db App)
      → Check {E = E} Faulty
          (λ w. (k.committed w ≡ d) × (k.seen (s.conn tx) w ≡ d))
          (or_drop
            (s.drop tx)
            (expecting (str "claim_many") (claim_many (consumer s c) (s.conn tx) ids)))
          (λ ks w.
            (k.committed w ≡ d)
            × (k.seen (s.conn tx) w ≡ add_all c ids d)
            × (ks ≡ claim_each c ids d))
  batch_triple tx c ids d = Check-or_drop Faulty (s.drop tx) (
      Triple-map_err _ (claim_many-Returns (consumer s c) k Faulty f (s.conn tx) ids d d)
        (λ e w h. h) (λ w h. h))

  commits_ids_triple :
      (c : ConsumerId) (ids : List Str) (d : Db App)
      → All IsMessage ids
      → ((id : Str) → contains ids id ≡ true → d.row c (msg id) ≡ true)
      → Check {E = E} Faulty
          (λ w. k.committed w ≡ d)
          (commits_ids s c ids)
          (λ _ w. k.committed w ≡ d)
  unfolding commits_ids
  commits_ids_triple c [] d valid known = Triple-pure tt (λ w h. h)
  commits_ids_triple c (id ∷ ids) d valid known = with_message Faulty _ id valid.0 (
      with_probe s k Faulty f _ (λ b. b) c (msg id) (str "claim_many's fresh claims must commit") d
        (known id (ground (arith, str_beq_iff id id)))
        (commits_ids_triple c ids d valid.1 (λ j h. known j (ground arith))))

  pub many_triple :
      (run : Run) (d : Db App)
      → IsRun run
      → IsNew (scoped_consumer run (str "claim-many")) d
      → Check Faulty
          (λ w. k.committed w ≡ d)
          (claim_many_matches_single_claims s run)
          (λ _ w. Others (scoped_consumer run (str "claim-many") ∷ []) d (k.committed w))
  unfolding claim_many_matches_single_claims begin commit
  many_triple run d r new =
      let c = scoped_consumer run (str "claim-many") in
      let known = add c (msg (str "b")) d in
      let e = add_all c batch known in
      with_consumer Faulty _ run (str "claim-many") r many-IsCheck (
        with_message Faulty _ (str "b") b-IsMessage (
          Triple-bind (claim_new_triple s k Faulty f c (msg (str "b")) d (new _)) (λ a.
            Triple-fact (λ w h. h.1)
              (λ fresh.
                with_assert Faulty _ _ _ (λ w h. fresh)
                  (with_message Faulty _ (str "c") c-IsMessage (
                    with_message Faulty _ (str "b") b-IsMessage (
                      with_message Faulty _ (str "a") a-IsMessage (
                        with_message Faulty _ (str "c") c-IsMessage (
                          Triple-bind
                            (Triple-mono
                              (Check-expecting Faulty (str "begin") (k.begin_lem known) f.begin_lem)
                              (λ w h. h.0) (λ _ w h. h) (λ x w h. h))
                            (λ tx. Triple-bind (batch_triple tx c batch known) (λ claims.
                              Triple-fact (λ w h. h.2)
                                (λ answered.
                                  Triple-bind
                                    (Triple-mono
                                      (Check-expecting Faulty (str "commit")
                                        (k.commit_lem tx known e) (f.commit_lem tx))
                                      (λ w h. (h.0, h.1)) (λ _ w h. h) (λ x w h. h))
                                    (λ _.
                                      with_assert Faulty _ _ _
                                        (λ w h.
                                          ap
                                            (λ ks. claims_beq ks (
                                              Claim.fresh ∷ Claim.duplicate ∷ Claim.fresh
                                              ∷ Claim.duplicate ∷ []))
                                            answered
                                          ∙ claim_each_lem c d new)
                                        (Triple-mono
                                          (commits_ids_triple c (str "a" ∷ str "c" ∷ []) e
                                            (a-IsMessage, (c-IsMessage, tt)) (committed_lem c d))
                                          (λ w h. h)
                                          (λ _ w h.
                                            subst (Others (c ∷ []) d) (sym h) (batch-Others c d))
                                          (λ x w h. h)))))))))))))))
