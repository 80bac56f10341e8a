-- ===== src/Testing/Suite.antt =====
-- `conformance` over a backend that keeps its contract.
use txbox.Common.{
  ℕ, false, ◌||◌, ◌≡◌, refl, ◌∙◌, ap, subst, List, [], ◌∷◌, ◌++◌, map, contains, ◌==◌, arith,
}
use txbox.Io.{Io}
use txbox.Io.Triple.{Gives, Triple-mono, Triple-fact, Triple-fix, Triple-bind}
use txbox.Store.{InboxStore}
use txbox.Store.Contract.{Contract, Db}
use txbox.Store.Reliable.{Reliable}
use txbox.Str.{Str, str, str_eq}
use txbox.Testing.{Panic, Run, run_new}
use txbox.Testing.Checks.{conformance}
use txbox.Testing.Ids.{ascii_check, wide_check, bytes_triple, max_length_triple}
use txbox.Testing.Names.{IsRun, run_new-IsRun, scoped_consumer, scoped_consumer-beq}
use txbox.Testing.Probes.{Excused, Check}
use txbox.Testing.Processes.{Others, IsNew, fresh_triple}
use txbox.Testing.Dropped.{dropped_triple}
use txbox.Testing.Rollbacks.{failure_triple, rollback_triple}
use txbox.Testing.Single.{many_triple}
use txbox.Types.{ConsumerId, MessageId, consumer_id_eq}

-- The rows of all consumers but those of the checks that are named.
abbrev OthersOf : {App : Type 0} → Run → List Str → Db App → Db App → Type 0
OthersOf run names d d' = Others (map (scoped_consumer run) names) d d'

contains-scoped :
    (run : Run) (names : List Str) (a : Str)
    → contains (map (scoped_consumer run) names) (scoped_consumer run a) ≡ contains names a
contains-scoped run [] a = refl
contains-scoped run (b ∷ names) a =
    ground (arith, contains-scoped run names a, scoped_consumer-beq run a b)

contains-append :
    (run : Run) (xs ys : List Str) (a : ConsumerId)
    → contains (map (scoped_consumer run) (xs ++ ys)) a
      ≡ (contains (map (scoped_consumer run) xs) a || contains (map (scoped_consumer run) ys) a)
contains-append run [] ys a = refl
contains-append run (x ∷ xs) ys a = ground (arith, contains-append run xs ys a)

-- The consumer's id is of no check of the run.
abbrev pub IsForeign : Run → ConsumerId → Type 0
IsForeign run j = (check : Str) → (j == scoped_consumer run check) ≡ false

pub contains-IsForeign :
    (run : Run) (names : List Str) (j : ConsumerId)
    → IsForeign run j
    → contains (map (scoped_consumer run) names) j ≡ false
contains-IsForeign run [] j h = refl
contains-IsForeign run (b ∷ names) j h = ground (arith, h b, contains-IsForeign run names j h)

module _ {W E App : Type 0} (s : InboxStore W E) (k : Contract s App) (Faulty : Type 0)
    (f : Reliable s Faulty) where
  module _ (run : Run) (d : Db App) (r : IsRun run)
      (new : (check : Str) → IsNew (scoped_consumer run check) d) where
    -- What a check finds that no earlier one has touched.
    still-IsNew :
        (names : List Str) (check : Str) (e : Db App)
        → contains names check ≡ false
        → OthersOf run names d e
        → IsNew (scoped_consumer run check) e
    still-IsNew names check e h o m =
        o (scoped_consumer run check) m (contains-scoped run names check ∙ h) ∙ new check m

    -- A check after those that are named.
    step :
        {m : Io W (Panic E) (Unit {0})} (names more : List Str)
        → ((e : Db App)
            → OthersOf run names d e
            → Check {E = E} Faulty
                (λ w. k.committed w ≡ e)
                m
                (λ _ w. OthersOf run more e (k.committed w)))
        → Check {E = E} Faulty
            (λ w. OthersOf run names d (k.committed w))
            m
            (λ _ w. OthersOf run (more ++ names) d (k.committed w))
    step names more t = Triple-fix k.committed (λ e.
        Triple-fact (λ w h. subst (OthersOf run names d) h.1 h.0)
          (λ o.
            Triple-mono (t e o) (λ w h. h.1)
              (λ _ w h j m u.
                h j m (ground (arith, contains-append run more names j))
                ∙ o j m (ground (arith, contains-append run more names j)))
              (λ x w h. h)))

    -- A check that leaves everything as it was.
    idle_step :
        {m : Io W (Panic E) (Unit {0})} (names : List Str)
        → ((e : Db App)
            → OthersOf run names d e
            → Check {E = E} Faulty (λ w. k.committed w ≡ e) m (λ _ w. k.committed w ≡ e))
        → Check {E = E} Faulty
            (λ w. OthersOf run names d (k.committed w))
            m
            (λ _ w. OthersOf run names d (k.committed w))
    idle_step names t = step names [] (λ e o.
        Triple-mono (t e o) (λ w h. h) (λ _ w h j m u. ap (λ (x : Db App). x.row j m) h)
          (λ x w h. h))

  -- The check of each name leaves rows, those of later checks first.
  abbrev names_dropped : List Str
  names_dropped = str "dropped" ∷ str "fresh" ∷ []

  abbrev names_longest : List Str
  names_longest = ascii_check ∷ wide_check ∷ names_dropped

  abbrev names_bytes : List Str
  names_bytes = str "bytes" ∷ names_longest

  abbrev names_all : List Str
  names_all = str "claim-many" ∷ names_bytes

  suite_triple :
      (n : ℕ) (d : Db App)
      → ((check : Str) → IsNew (scoped_consumer (run_new n) check) d)
      → Check Faulty
          (λ w. OthersOf (run_new n) [] d (k.committed w))
          (conformance s n)
          (λ _ w. OthersOf (run_new n) names_all d (k.committed w))
  unfolding conformance
  suite_triple n d new =
      let run = run_new n in
      let r = run_new-IsRun n in
      Triple-bind
        (step run d r new [] (str "fresh" ∷ []) (λ e o.
          fresh_triple s k Faulty f run e r (still-IsNew run d r new [] (str "fresh") e refl o)))
        (λ _.
          Triple-bind
            (idle_step run d r new (str "fresh" ∷ []) (λ e o.
              failure_triple s k Faulty f run e r
                (still-IsNew run d r new (str "fresh" ∷ []) (str "handler-failure") e refl o)
                (still-IsNew run d r new (str "fresh" ∷ []) (str "handler-failure-effect") e refl
                  o)))
            (λ _.
              Triple-bind
                (idle_step run d r new (str "fresh" ∷ []) (λ e o.
                  rollback_triple s k Faulty f run e r
                    (still-IsNew run d r new (str "fresh" ∷ []) (str "rollback") e refl o)))
                (λ _.
                  Triple-bind
                    (step run d r new (str "fresh" ∷ []) (str "dropped" ∷ []) (λ e o.
                      dropped_triple s k Faulty f run e r
                        (still-IsNew run d r new (str "fresh" ∷ []) (str "dropped") e refl o)))
                    (λ _.
                      Triple-bind
                        (step run d r new names_dropped (ascii_check ∷ wide_check ∷ []) (λ e o.
                          max_length_triple s k Faulty f run e r
                            (still-IsNew run d r new names_dropped ascii_check e refl o)
                            (still-IsNew run d r new names_dropped wide_check e refl o)))
                        (λ _.
                          Triple-bind
                            (step run d r new names_longest (str "bytes" ∷ []) (λ e o.
                              bytes_triple s k Faulty f run e r
                                (still-IsNew run d r new names_longest (str "bytes") e refl o)))
                            (λ _. step run d r new names_bytes (str "claim-many" ∷ []) (λ e o.
                              many_triple s k Faulty f run e r (
                                still-IsNew run d r new names_bytes (str "claim-many") e refl
                                  o))))))))

  -- Over a backend that keeps its contract, and contents without rows for the consumers of the run:
  -- `conformance` returns, and leaves the rows of every other consumer as they were; or a call of the
  -- backend failed or stopped (`Faulty`, which is empty for a backend whose calls all return) and it
  -- panics at an `expect` on such a call or at the assertion on the error of the failing handler, or
  -- stops with the call. It never panics at an id that is refused or at another assertion.
  pub conformance_triple :
      (n : ℕ) (d : Db App)
      → ((check : Str) → IsNew (scoped_consumer (run_new n) check) d)
      → (w : W) → k.committed w ≡ d
      → Gives w
          (conformance s n)
          (λ _ w'.
            (j : ConsumerId) (m : MessageId)
            → IsForeign (run_new n) j
            → (k.committed w').row j m ≡ d.row j m)
          (λ x _. Excused Faulty x)
  conformance_triple n d new w at =
      let spared : Check {E = E} Faulty (λ w. OthersOf (run_new n) [] d (k.committed w))
          (conformance s n)
          (λ _ w'.
            (j : ConsumerId) (m : MessageId)
            → IsForeign (run_new n) j
            → (k.committed w').row j m ≡ d.row j m) =
        Triple-mono (suite_triple n d new) (λ w h. h)
          (λ _ w h j m foreign. h j m (contains-IsForeign (run_new n) names_all j foreign))
          (λ x w h. h) in
      spared.at w (λ j m _. ap (λ (x : Db App). x.row j m) at)
