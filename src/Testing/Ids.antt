-- ===== src/Testing/Ids.antt =====
-- The checks of ids: those of the greatest length are accepted, and ids are told apart byte for byte.
use txbox.Common.{
  Bool, true, false, not, ◌&&◌, ◌≡◌, refl, ◌∙◌, sym, subst, List, [], ◌∷◌, ◌++◌, contains, ◌==◌,
  arith, ◌/◌, replicate, All, nat_eq,
}
use txbox.Io.Triple.{Triple-pure, Triple-mono, Triple-fact, Triple-bind}
use txbox.Store.{InboxStore}
use txbox.Store.Contract.{Contract, Db, add}
use txbox.Store.Reliable.{Reliable}
use txbox.Str.{Str, str, len, is_whitespace, str_beq, str_eq, str_beq_iff}
use txbox.Testing.{Run, claim_and_commit, valid}
use txbox.Testing.Checks.{
  max_length_ids_are_accepted, ids_compare_byte_for_byte, accepts_ids, distinguishes, long, wide,
}
use txbox.Testing.Names.{
  IsRun, IsCheck, scoped_consumer, scoped_consumer-beq, len-prefix, prefixed_lem,
}
use txbox.Testing.Probes.{
  Check, IsMessage, with_assert, with_message, with_consumer, claim_and_commit_triple,
}
use txbox.Testing.Processes.{Others, IsNew, add-row, Others-add}
use txbox.Testing.Accepted.{accepts-IsMessage, ids-IsMessage}
use txbox.Types.{
  Claim, claim_eq, ConsumerId, MessageId, consumer_id_eq, message_id_eq, message_max_len,
}

abbrev pub distinct : List Str → Bool
distinct [] = true
distinct (id ∷ ids) = not (contains ids id) && distinct ids

abbrev pub ascii_check : Str
ascii_check = replicate 226 b'x'

abbrev pub wide_check : Str
wide_check = replicate 56 wide ++ replicate 2 b'y'

ascii-IsCheck : IsCheck ascii_check
unfolding is_whitespace len
ascii-IsCheck = record { not_blank = refl; ends_clean = refl; short = omega arith }

wide-IsCheck : IsCheck wide_check
unfolding is_whitespace len
wide-IsCheck = record { not_blank = refl; ends_clean = refl; short = omega arith }

bytes-IsCheck : IsCheck (str "bytes")
unfolding is_whitespace len
bytes-IsCheck = record { not_blank = refl; ends_clean = refl; short = omega arith }

ascii-IsMessage : IsMessage (replicate message_max_len b'm')
unfolding is_whitespace len
ascii-IsMessage = accepts-IsMessage _ refl

wide-IsMessage : IsMessage (replicate (message_max_len / 4) wide)
unfolding is_whitespace len
wide-IsMessage = accepts-IsMessage _ refl

abbrev look_alikes : List Str
look_alikes =
    ((long ++ str "a")
      ∷ (long ++ str "b")
      ∷ str "Order-1"
      ∷ str "order-1"
      ∷ (str "caf" ++ 0xe9 ∷ [])
      ∷ str "cafe"
      ∷ [])

look_alikes-distinct : distinct look_alikes ≡ true
look_alikes-distinct = refl

-- An id that comes later is not the one that was claimed.
not_repeated :
    {App : Type 0} (c : ConsumerId) (id : Str) (ids : List Str) (d : Db App) (j : Str)
    → distinct (id ∷ ids) ≡ true
    → d.row c (record { as_str = j }) ≡ false
    → contains ids j ≡ true
    → (add c (record { as_str = id }) d).row c (record { as_str = j }) ≡ false
not_repeated c id ids d j apart new h = ground (arith, str_beq_iff j id)

look_alikes-IsMessage : All IsMessage look_alikes
unfolding is_whitespace len
look_alikes-IsMessage = ids-IsMessage look_alikes refl

pub apart :
    (run : Run) (a b : Str)
    → str_beq a b ≡ false
    → contains (scoped_consumer run b ∷ []) (scoped_consumer run a) ≡ false
apart run a b h = ground (arith, scoped_consumer-beq run a b)

later_spared :
    {App : Type 0} (c : ConsumerId) (used : List ConsumerId) (d e e' : Db App)
    → Others (c ∷ []) d e
    → Others used e e'
    → Others (c ∷ used) d e'
later_spared c used d e e' first rest j n o = rest j n (ground arith) ∙ first j n (ground arith)

module _ {W E App : Type 0} (s : InboxStore W E) (k : Contract s App) (Faulty : Type 0)
    (f : Reliable s Faulty) where
  -- What is claimed was new, and only its consumer's rows change.
  pub claim_new_triple :
      (c : ConsumerId) (m : MessageId) (d : Db App)
      → d.row c m ≡ false
      → Check {E = E} Faulty
          (λ w. k.committed w ≡ d)
          (claim_and_commit s c m)
          (λ a w. (k.committed w ≡ add c m d) × ((a == Claim.fresh) ≡ true))
  claim_new_triple c m d new =
      Triple-mono (claim_and_commit_triple s k Faulty f c m d) (λ w h. h)
        (λ a w h. (h.0, ground (arith, h.1))) (λ x w h. h)

  claim_again_triple :
      (c : ConsumerId) (m : MessageId) (d : Db App)
      → d.row c m ≡ true
      → Check {E = E} Faulty
          (λ w. k.committed w ≡ d)
          (claim_and_commit s c m)
          (λ a w. (k.committed w ≡ add c m d) × ((a == Claim.duplicate) ≡ true))
  claim_again_triple c m d known =
      Triple-mono (claim_and_commit_triple s k Faulty f c m d) (λ w h. h)
        (λ a w h. (h.0, ground (arith, h.1))) (λ x w h. h)

  distinguishes_triple :
      (c : ConsumerId) (ids : List Str) (d : Db App)
      → All IsMessage ids
      → distinct ids ≡ true
      → ((id : Str) → contains ids id ≡ true → d.row c (record { as_str = id }) ≡ false)
      → Check Faulty
          (λ w. k.committed w ≡ d)
          (distinguishes s c ids)
          (λ _ w. Others (c ∷ []) d (k.committed w))
  unfolding distinguishes
  distinguishes_triple c [] d valid apart new =
      Triple-pure tt (λ w h. subst (Others (c ∷ []) d) (sym h) (λ j n _. refl))
  distinguishes_triple c (id ∷ ids) d valid apart new =
      let m : MessageId = record { as_str = id } in
      with_message Faulty _ id valid.0 (
        Triple-bind (claim_new_triple c m d (new id (ground (arith, str_beq_iff id id)))) (λ a.
          Triple-fact (λ w h. h.1)
            (λ fresh.
              with_assert Faulty _ _ _ (λ w h. fresh)
                (Triple-mono
                  (distinguishes_triple c ids (add c m d) valid.1 (ground arith)
                    (λ j h. not_repeated c id ids d j apart (new j (ground arith)) h))
                  (λ w h. h.0) (λ _ w h. λ j n o. h j n o ∙ Others-add c m d j n o) (λ x w h. h)))))

  pub bytes_triple :
      (run : Run) (d : Db App)
      → IsRun run
      → IsNew (scoped_consumer run (str "bytes")) d
      → Check Faulty
          (λ w. k.committed w ≡ d)
          (ids_compare_byte_for_byte s run)
          (λ _ w. Others (scoped_consumer run (str "bytes") ∷ []) d (k.committed w))
  unfolding ids_compare_byte_for_byte
  bytes_triple run d r new = with_consumer Faulty _ run (str "bytes") r bytes-IsCheck (
      distinguishes_triple (scoped_consumer run (str "bytes")) look_alikes d look_alikes-IsMessage
        look_alikes-distinct (λ id _. new (record { as_str = id })))

  -- One round of the loop.
  accepts_triple :
      (c : ConsumerId) (m : MessageId) (rest : List (ConsumerId × MessageId)) (d : Db App)
      (used : List ConsumerId)
      → d.row c m ≡ false
      → ((e : Db App)
          → Others (c ∷ []) d e
          → Check Faulty
              (λ w. k.committed w ≡ e)
              (accepts_ids s rest)
              (λ _ w. Others used e (k.committed w)))
      → Check Faulty
          (λ w. k.committed w ≡ d)
          (accepts_ids s ((c, m) ∷ rest))
          (λ _ w. Others (c ∷ used) d (k.committed w))
  unfolding accepts_ids
  accepts_triple c m rest d used new next =
      let e = add c m (add c m d) in
      let spared : Others (c ∷ []) d e =
        λ j n o. Others-add c m (add c m d) j n o ∙ Others-add c m d j n o in
      Triple-bind (claim_new_triple c m d new) (λ a.
        Triple-fact (λ w h. h.1)
          (λ fresh.
            with_assert Faulty _ _ _ (λ w h. fresh)
              (Triple-bind
                (Triple-mono (claim_again_triple c m (add c m d) (add-row c m d)) (λ w h. h.0)
                  (λ _ w h. h) (λ x w h. h))
                (λ b.
                  Triple-fact (λ w h. h.1)
                    (λ again.
                      with_assert Faulty _ _ _ (λ w h. again)
                        (Triple-mono (next e spared) (λ w h. h.0)
                          (λ _ w h. later_spared c used d e (k.committed w) spared h)
                          (λ x w h. h)))))))

  accepts_none :
      (d : Db App)
      → Check {E = E} Faulty
          (λ w. k.committed w ≡ d)
          (accepts_ids s [])
          (λ _ w. Others [] d (k.committed w))
  unfolding accepts_ids
  accepts_none d = Triple-pure tt (λ w h. subst (Others [] d) (sym h) (λ j n _. refl))

  -- A prefix leaves the room that the longest consumer ids fill.
  pub max_length_triple :
      (run : Run) (d : Db App)
      → IsRun run
      → IsNew (scoped_consumer run ascii_check) d
      → IsNew (scoped_consumer run wide_check) d
      → Check Faulty
          (λ w. k.committed w ≡ d)
          (max_length_ids_are_accepted s run)
          (λ _ w.
            Others
              (scoped_consumer run ascii_check ∷ scoped_consumer run wide_check ∷ [])
              d
              (k.committed w))
  unfolding max_length_ids_are_accepted
  max_length_triple run d r new_ascii new_wide =
      rw
        (
          len-prefix run r,
          prefixed_lem run ascii_check r ascii-IsCheck,
          prefixed_lem run wide_check r wide-IsCheck,
        )
        (with_message Faulty _ (replicate message_max_len b'm') ascii-IsMessage (
          with_message Faulty _ (replicate (message_max_len / 4) wide) wide-IsMessage (
            accepts_triple (scoped_consumer run ascii_check)
              (record { as_str = replicate message_max_len b'm' })
              ((
                scoped_consumer run wide_check,
                record { as_str = replicate (message_max_len / 4) wide },
              )
                ∷ [])
              d (scoped_consumer run wide_check ∷ []) (new_ascii _)
              (λ e o.
                accepts_triple (scoped_consumer run wide_check)
                  (record { as_str = replicate (message_max_len / 4) wide }) [] e []
                  (o (scoped_consumer run wide_check) _ (apart run wide_check ascii_check refl)
                    ∙ new_wide _)
                  (λ e' _. accepts_none e')))))
