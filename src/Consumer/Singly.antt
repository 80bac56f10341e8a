-- ===== src/Consumer/Singly.antt =====
-- `process_many` against one `process` for each message.
use txbox.Common.{
  true, ◌≡◌, inl, inr, refl, sym, ap, ◌∙◌, none, some, List, [], ◌∷◌, arith, Bool, Bool-cases,
}
use txbox.Consumer.{Consumer, process}
use txbox.Consumer.Many.{process_many}
use txbox.Consumer.Many.Complete.{process_many-Returns}
use txbox.Consumer.Many.Each.{EffectPost, EffectFail, one, each, one-known, one-new, Processed-each}
use txbox.Consumer.Many.Runs.{BatchHandlerContract}
use txbox.Consumer.Process.{HandlerContract, process-duplicate_triple, process-fresh_triple}
use txbox.Consumer.Returns.{HandlerReturns, process-Ended, failing_of}
use txbox.Error.{HandlerError}
use txbox.Io.{Io}
use txbox.Io.Triple.{Triple, Gives, Triple-and, Triple-mono, Triple-always}
use txbox.Store.{Savepoints}
use txbox.Store.Contract.{Contract, SavepointContract, Db}
use txbox.Store.Reliable.{Reliable, ReliableSavepoints}
use txbox.Str.{Str}
use txbox.Types.{MessageId}

-- One call of `process` for each message, whatever becomes of it.
abbrev pub process_each :
    {W E T : Type 0} (c : Consumer W E)
    → (c.store.Conn → MessageId → Io W (HandlerError E) T)
    → List MessageId
    → W
    → W
process_each c handler [] w = w
process_each c handler (m ∷ ms) w =
    process_each c handler ms (process c m (λ conn. handler conn m) w).1

module _ {W E App T : Type 0} (c : Consumer W E) (k : Contract c.store App) (f : Reliable c.store ⊥)
    (handler : c.store.Conn → MessageId → Io W (HandlerError E) T) (effect : MessageId → App → App)
    (fails : Str → Bool)
    (hk : (m : MessageId)
      → HandlerContract c k (λ conn. handler conn m) (EffectPost effect fails m))
    (back : (conn : c.store.Conn) (m : MessageId)
      → HandlerReturns (fails m.as_str ≡ true) ⊥ (handler conn m)) where
  abbrev Left : MessageId → Db App → W → Type 0
  Left m x w = k.committed w ≡ one c.id effect fails m x

  one_triple :
      (m : MessageId) (x : Db App)
      → Triple
          (λ w. k.committed w ≡ x)
          (process c m (λ conn. handler conn m))
          (λ _. Left m x)
          (λ _. Left m x)
  one_triple m x = elim (Bool-cases (x.row c.id m)) [
    | inl known ↦
        let same = one-known c.id effect fails m x (ground (arith, known)) in
        Triple-mono (process-duplicate_triple c k m (λ conn. handler conn m) x known) (λ w h. h)
          (λ o w h. h.1 ∙ sym same) (λ e w h. h ∙ sym same)
    | inr new ↦
        Triple-mono
          (Triple-and
            (process-fresh_triple c k (EffectPost effect fails m) (λ conn. handler conn m) (hk m) m
              x new)
            (Triple-mono
              (process-Ended c (fails m.as_str ≡ true) ⊥ f m (λ conn. handler conn m)
                (λ conn. back conn m))
              (λ w h. tt) (λ a w h. h) (λ e w h. h)))
          (λ w h. h)
          (λ o w h. h.0.2.0 ∙ sym (one-new c.id effect fails m x (ground (arith, new, h.0.2.1))))
          (λ e w h.
            let failed : fails m.as_str ≡ true = elim h.1 [
              | inl x ↦ absurd x
              | inr g ↦ failing_of e g
            ] in
            elim h.0 [
              | inl same ↦ same ∙ sym (one-known c.id effect fails m x (ground (arith, failed)))
              | inr done ↦ absurd (cc (failed, done.1.1))
            ])
  ]

  each_lem :
      (ids : List MessageId) (w : W)
      → k.committed (process_each c handler ids w) ≡ each c.id effect fails ids (k.committed w)
  each_lem [] w = refl
  each_lem (m ∷ ms) w =
      each_lem ms (process c m (λ conn. handler conn m) w).1
      ∙ ap (each c.id effect fails ms) (
          Triple-always (Left m (k.committed w)) (process c m (λ conn. handler conn m)) w
            (one_triple m (k.committed w)) refl)

  -- Over a backend that keeps its contracts and whose calls all return, with a handler whose failures
  -- depend on the message alone, and whose effect is on the application's data and depends on them
  -- and the message alone: `process_many` returns, and leaves the application's data and the rows of
  -- the consumer as one `process` for each message, in order, leaves them.
  pub process_many-process_each :
      (p : Savepoints c.store) (sk : SavepointContract c.store p App k)
      (g : ReliableSavepoints c.store p k sk ⊥)
      → BatchHandlerContract c p k sk handler (EffectPost effect fails) (EffectFail fails)
      → (ids : List MessageId) (w : W)
      → Gives w
          (process_many c p ids handler)
          (λ rs w'.
            ((k.committed w').app ≡ (k.committed (process_each c handler ids w)).app)
            × ((j : MessageId)
                → (k.committed w').row c.id j
                  ≡ (k.committed (process_each c handler ids w)).row c.id j))
          (λ _ _. ⊥)
  process_many-process_each p sk g bk ids w =
      let single = each_lem ids w in
      let done =
        Triple-mono
          {Q' = λ rs w'.
            ((k.committed w').app ≡ (k.committed (process_each c handler ids w)).app)
            × ((j : MessageId)
                → (k.committed w').row c.id j
                  ≡ (k.committed (process_each c handler ids w)).row c.id j)}
          (process_many-Returns c p k sk handler (EffectPost effect fails) (EffectFail fails) bk ids
            (k.committed w) ⊥ f g
            (λ conn m.
              Triple-mono (back conn m) (λ w h. h) (λ a w h. h)
                (elim [ none ↦ λ w h e. h | some e ↦ λ w h eq. cc ])))
          (λ w' h. h)
          (λ rs w' h.
            let same = Processed-each c.id effect fails ids (k.committed w) rs (k.committed w') h in
            (
              same.0 ∙ ap (λ (x : Db App). x.app) (sym single),
              λ j. same.1 j ∙ ap (λ (x : Db App). x.row c.id j) (sym single),
            ))
          (λ x w' h. h) in
      done.at w refl
