-- ===== src/Testing/Dropped.antt =====
-- The check of a transaction that is dropped.
use txbox.Common.{not, ◌≡◌, refl, ◌∙◌, sym, subst, [], ◌∷◌, arith}
use txbox.Consumer.{begin, commit}
use txbox.Io.{◌>>=◌}
use txbox.Io.Triple.{Triple-mono, Triple-bind}
use txbox.Store.{InboxStore}
use txbox.Store.Contract.{Contract, Db, add}
use txbox.Store.Reliable.{Reliable}
use txbox.Str.{Str, str, len, is_whitespace}
use txbox.Testing.{Run, assert, is_committed}
use txbox.Testing.Checks.{dropped_transaction_does_not_persist, leave}
use txbox.Testing.Names.{IsRun, IsCheck, scoped_consumer}
use txbox.Testing.Probes.{
  Check, Check-expecting, IsMessage, with_message, with_consumer, with_probe, last_probe,
  Check-claim,
}
use txbox.Testing.Processes.{Others, IsNew, add-row, Others-add}
use txbox.Types.{MessageId, consumer_id_eq, message_id_eq}

dropped-IsCheck : IsCheck (str "dropped")
unfolding is_whitespace len
dropped-IsCheck = record { not_blank = refl; ends_clean = refl; short = omega arith }

dropped-IsMessage : IsMessage (str "dropped")
unfolding is_whitespace len
dropped-IsMessage = record {
  clean = record { not_blank = refl; starts_clean = refl; ends_clean = refl };
  short = omega arith;
}

later-IsMessage : IsMessage (str "later")
unfolding is_whitespace len
later-IsMessage = record {
  clean = record { not_blank = refl; starts_clean = refl; ends_clean = refl };
  short = omega arith;
}

abbrev leaked : Str
leaked =
    str
      "a transaction dropped without commit must roll back; its claim was committed later, likely by the next transaction on the same pooled connection"

module _ {W E App : Type 0} (s : InboxStore W E) (k : Contract s App) (Faulty : Type 0)
    (f : Reliable s Faulty) where
  -- The first transaction is dropped.
  left :
      {P : W → Type 0} (tx : s.Tx) (d : Db App)
      → ((w : W) → P w → k.committed w ≡ d)
      → Check {E = E} Faulty P (leave s tx) (λ _ w. k.committed w ≡ d)
  unfolding leave
  left tx d before = record { at = λ w h. k.drop_lem tx w ∙ before w h }

  dropped_exact :
      (run : Run) (d : Db App)
      → IsRun run
      → IsNew (scoped_consumer run (str "dropped")) d
      → Check Faulty
          (λ w. k.committed w ≡ d)
          (dropped_transaction_does_not_persist s run)
          (λ _ w.
            k.committed w
            ≡ add (scoped_consumer run (str "dropped")) (record { as_str = str "later" }) d)
  unfolding dropped_transaction_does_not_persist begin commit leave
  dropped_exact run d r new =
      let c = scoped_consumer run (str "dropped") in
      let dropped : MessageId = record { as_str = str "dropped" } in
      let later : MessageId = record { as_str = str "later" } in
      with_consumer Faulty _ run (str "dropped") r dropped-IsCheck (
        with_message Faulty _ (str "dropped") dropped-IsMessage (
          with_message Faulty _ (str "later") later-IsMessage (
            Triple-bind (Check-expecting Faulty (str "begin") (k.begin_lem d) f.begin_lem) (λ first.
              Triple-bind (Check-claim s k Faulty f first c dropped d) (λ a.
                Triple-bind (left first d (λ w h. h.0)) (λ _.
                  Triple-bind (Check-expecting Faulty (str "begin") (k.begin_lem d) f.begin_lem)
                    (λ tx. Triple-bind (Check-claim s k Faulty f tx c later d) (λ b.
                      Triple-bind
                        (Triple-mono
                          (Check-expecting Faulty (str "commit") (k.commit_lem tx d (add c later d))
                            (f.commit_lem tx))
                          (λ w h. (h.0, h.1)) (λ _ w h. h) (λ x w h. h))
                        (λ _.
                          with_probe s k Faulty f
                            (λ _. is_committed s c dropped >>= λ b. assert (not b) leaked) (λ x. x)
                            c later (str "a committed claim must persist") (add c later d)
                            (add-row c later d)
                            (last_probe s k Faulty f not c dropped leaked (add c later d)
                              (ground (arith, new dropped))))))))))))

  pub dropped_triple :
      (run : Run) (d : Db App)
      → IsRun run
      → IsNew (scoped_consumer run (str "dropped")) d
      → Check Faulty
          (λ w. k.committed w ≡ d)
          (dropped_transaction_does_not_persist s run)
          (λ _ w. Others (scoped_consumer run (str "dropped") ∷ []) d (k.committed w))
  dropped_triple run d r new =
      let c = scoped_consumer run (str "dropped") in
      Triple-mono (dropped_exact run d r new) (λ w h. h)
        (λ _ w h.
          subst (Others (c ∷ []) d) (sym h) (Others-add c (record { as_str = str "later" }) d))
        (λ x w h. h)
