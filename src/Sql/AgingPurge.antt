-- ===== src/Sql/AgingPurge.antt =====
-- The purge loop over a statement that reads the clock: rows become too old between two rounds.
use txbox.Common.{
  ℕ, zero, suc, ◌+◌, ◌-◌, ◌%◌, ◌^◌, ◌≤◌, ◌<◌, min, ◌≡◌, ◌≢◌, refl, ◌∙◌, none, true, false, arith,
  ap, subst, ltb, Bool-cases, inl, inr,
}
use txbox.Io.{Io, map_err}
use txbox.Io.Triple.{
  Triple, Triple-pure, Triple-bind, Triple-mono, Triple-fact, Triple-fix, Triple-map_err, Gives,
}
use txbox.Sql.{purge_loop}
use txbox.Sql.Purge.{last_round, full_round}

-- A purge statement with a limit of `batch` rows, which reads the time itself. `clock` is the time
-- that the last statement read, and `too_old w u` counts the rows whose age passes the limit by the
-- time `u`. Each round reads a time that is no earlier; of the rows that are too old by then, it
-- deletes as many as its limit allows, and reports their number. No row is added meanwhile. A
-- statement that fails returns its error.
pub record AgingPurge {W F : Type 0} (statement : Io W F ℕ) (batch : ℕ) (clock : W → ℕ)
    (too_old : W → ℕ → ℕ) : Type 0 where
  pub run_lem :
      (t : ℕ) (f : ℕ → ℕ)
      → Triple
          (λ w. (clock w ≡ t) × (too_old w ≡ f))
          statement
          (λ affected w.
            (t ≤ clock w)
            × (affected ≡ min batch (f (clock w)))
            × ((u : ℕ) → clock w ≤ u → too_old w u + affected ≡ f u))
          (λ x _. x ≢ none)

module _ {W F : Type 0} (statement : Io W F ℕ) (batch : ℕ) (clock : W → ℕ) (too_old : W → ℕ → ℕ)
    (law : AgingPurge statement batch clock too_old) where
  -- What a round has done by the time that its statement read.
  abbrev Round : ℕ → (ℕ → ℕ) → ℕ → ℕ → (ℕ → ℕ) → Type 0
  Round t f affected now g =
      (t ≤ now) × (affected ≡ min batch (f now)) × ((u : ℕ) → now ≤ u → g u + affected ≡ f u)

  -- What the loop has done by the time that its last statement read.
  abbrev Purged : ℕ → ℕ → (ℕ → ℕ) → ℕ → W → Type 0
  Purged total t f deleted w =
      (t ≤ clock w) × (deleted ≡ (total + f (clock w)) % 2 ^ 64) × (too_old w (clock w) ≡ 0)

  Purged-last :
      (total t affected : ℕ) (f : ℕ → ℕ) (w : W)
      → Round t f affected (clock w) (too_old w)
      → ltb affected batch ≡ true
      → Purged total t f ((total + affected) % 2 ^ 64) w
  Purged-last total t affected f w (later, reported, rest) last =
      let (all, few) = last_round affected batch (f (clock w)) reported last in
      (later, ap (λ n. (total + n) % 2 ^ 64) all, omega (arith, rest (clock w) (omega arith), all))

  Purged-more :
      (total t affected now deleted : ℕ) (f g : ℕ → ℕ) (w : W)
      → Round t f affected now g
      → Purged ((total + affected) % 2 ^ 64) now g deleted w
      → Purged total t f deleted w
  Purged-more total t affected now deleted f g w (later, reported, rest) (past, e, none_left) =
      (omega (arith, later, past), e ∙ omega (arith, rest (clock w) past), none_left)

  -- The rest of the loop has that many rows less to delete.
  rows-more :
      (t affected now rows fuel : ℕ) (f g : ℕ → ℕ)
      → 1 ≤ batch
      → rows < suc fuel
      → ((u : ℕ) → t ≤ u → f u ≤ rows)
      → Round t f affected now g
      → ltb affected batch ≡ false
      → (rows - batch < fuel) × ((u : ℕ) → now ≤ u → g u ≤ rows - batch)
  rows-more t affected now rows fuel f g b h few (later, reported, rest) more =
      let (full, room) = full_round affected batch (f now) reported more in
      (
        omega (arith, few now later, room),
        λ u le. omega (arith, rest u le, few u (omega (arith, le, later)), full),
      )

  purge_loop_triple :
      (fuel rows total t : ℕ) (f : ℕ → ℕ)
      → 1 ≤ batch
      → rows < fuel
      → ((u : ℕ) → t ≤ u → f u ≤ rows)
      → Triple
          (λ w. (clock w ≡ t) × (too_old w ≡ f))
          (purge_loop statement batch fuel total)
          (Purged total t f)
          (λ x _. x ≢ none)
  unfolding purge_loop
  purge_loop_triple zero rows total t f b h few = absurd (omega arith)
  purge_loop_triple (suc fuel) rows total t f b h few = Triple-bind (law.run_lem t f) (λ affected.
      elim (Bool-cases (ltb affected batch)) [
        | inl last ↦ rw last (
            Triple-pure ((total + affected) % 2 ^ 64)
              (λ w p. Purged-last total t affected f w p last))
        | inr more ↦ rw more (
            Triple-fix clock (λ now. Triple-fix too_old (λ g.
              Triple-fact {F = Round t f affected now g}
                (λ w p.
                  subst (Round t f affected now) p.1
                    (subst (λ c. Round t f affected c (too_old w)) p.0.1 p.0.0))
                (λ k.
                  let (enough, few') = rows-more t affected now rows fuel f g b h few k more in
                  Triple-mono
                    (purge_loop_triple fuel (rows - batch) ((total + affected) % 2 ^ 64) now g b
                      enough few')
                    (λ w p. (p.0.1, p.1))
                    (λ deleted w p. Purged-more total t affected now deleted f g w k p)
                    (λ x w p. p)))))
      ])

  -- With a batch of at least one row, and more rounds than there are rows that can become too old,
  -- the loop ends. It has then deleted the rows that were too old by the time that its last statement
  -- read, and reports their number as a `u64`, or it returns the error of a statement.
  pub purge_loop-ages :
      (fuel rows : ℕ) (w : W)
      → 1 ≤ batch
      → rows < fuel
      → ((u : ℕ) → clock w ≤ u → too_old w u ≤ rows)
      → Gives w
          (purge_loop statement batch fuel 0)
          (λ deleted w'.
            (clock w ≤ clock w')
            × (deleted ≡ too_old w (clock w') % 2 ^ 64)
            × (too_old w' (clock w') ≡ 0))
          (λ x _. x ≢ none)
  purge_loop-ages fuel rows w b h few =
      let done =
        Triple-mono
          {Q' = λ deleted w'.
            (clock w ≤ clock w')
            × (deleted ≡ too_old w (clock w') % 2 ^ 64)
            × (too_old w' (clock w') ≡ 0)}
          (purge_loop_triple fuel rows 0 (clock w) (too_old w) b h few) (λ w' p. p)
          (λ deleted w' (later, e, none_left). (later, e ∙ omega arith, none_left)) (λ x w' p. p) in
      done.at w (refl, refl)

-- An error that is only wrapped is still an error.
pub AgingPurge-wrapped :
    {W E F : Type 0} {statement : Io W E ℕ} {batch : ℕ} {clock : W → ℕ} {too_old : W → ℕ → ℕ}
    (f : E → F)
    → AgingPurge statement batch clock too_old
    → AgingPurge (map_err f statement) batch clock too_old
AgingPurge-wrapped f law = record {
  run_lem = λ t g. Triple-map_err f (law.run_lem t g) (λ e w h k. cc) (λ w h k. h refl);
}
