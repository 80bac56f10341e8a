-- ===== src/Sql/Purge.antt =====
-- The purge loop ends, and has then deleted every row that was too old.
use txbox.Common.{
  ℕ, zero, suc, ◌+◌, ◌-◌, ◌%◌, ◌^◌, ◌≤◌, ◌<◌, min, ◌≡◌, ◌≢◌, refl, ◌∙◌, none, true, false, arith,
  ltb, Bool-cases, inl, inr,
}
use txbox.Io.{Io, map_err}
use txbox.Io.Triple.{
  Triple, Triple-pure, Triple-bind, Triple-mono, Triple-fact, Triple-map_err, Gives,
}
use txbox.Sql.{purge_loop}

-- A purge statement: of the `stale` rows it deletes as many as its limit allows, and reports their
-- number. A statement that fails returns its error.
pub record PurgeStatement {W F : Type 0} (statement : Io W F ℕ) (batch : ℕ) (stale : W → ℕ)
    : Type 0 where
  pub run_lem :
      (n : ℕ)
      → Triple
          (λ w. stale w ≡ n)
          statement
          (λ affected w. (affected ≡ min batch n) × (stale w ≡ n - min batch n))
          (λ x _. x ≢ none)

-- A round below the limit was the last one.
pub last_round : (a batch n : ℕ) → a ≡ min batch n → ltb a batch ≡ true → (a ≡ n) × (n < batch)
last_round a batch n e h = ground arith

pub full_round : (a batch n : ℕ) → a ≡ min batch n → ltb a batch ≡ false → (a ≡ batch) × (batch ≤ n)
full_round a batch n e h = ground arith

module _ {W F : Type 0} (statement : Io W F ℕ) (batch : ℕ) (stale : W → ℕ)
    (law : PurgeStatement statement batch stale) where
  -- With a batch of at least one row, and as many rounds as there are rows and one more, the loop
  -- never runs on for ever: it returns the number of rows that were too old, as a `u64`, and none is
  -- left, or it returns the error of a statement.
  pub purge_loop_triple :
      (fuel n total : ℕ)
      → 1 ≤ batch
      → n < fuel
      → Triple
          (λ w. stale w ≡ n)
          (purge_loop statement batch fuel total)
          (λ deleted w. (deleted ≡ (total + n) % 2 ^ 64) × (stale w ≡ 0))
          (λ x _. x ≢ none)
  unfolding purge_loop
  purge_loop_triple zero n total b h = absurd (omega arith)
  purge_loop_triple (suc fuel) n total b h = Triple-bind (law.run_lem n) (λ affected.
      Triple-fact (λ w p. p.0)
        (λ reported. elim (Bool-cases (ltb affected batch)) [
          | inl last ↦
              let (all, few) = last_round affected batch n reported last in
              rw last
                (Triple-pure ((total + affected) % 2 ^ 64) (λ w p. (omega arith, omega arith)))
          | inr more ↦
              let (full, room) = full_round affected batch n reported more in
              rw more (
                Triple-mono
                  (purge_loop_triple fuel (n - batch) ((total + affected) % 2 ^ 64) b (omega arith))
                  (λ w p. omega arith) (λ deleted w p. (p.0 ∙ omega arith, p.1)) (λ x w p. p))
        ]))

  -- Run in a world, from a total of nothing.
  pub purge_loop-deletes :
      (fuel : ℕ) (w : W)
      → 1 ≤ batch
      → stale w < fuel
      → Gives w
          (purge_loop statement batch fuel 0)
          (λ deleted w'. (deleted ≡ stale w % 2 ^ 64) × (stale w' ≡ 0))
          (λ x _. x ≢ none)
  purge_loop-deletes fuel w b h =
      let done =
        Triple-mono {Q' = λ deleted w'. (deleted ≡ stale w % 2 ^ 64) × (stale w' ≡ 0)}
          (purge_loop_triple fuel (stale w) 0 b h) (λ w' p. p)
          (λ deleted w' p. (p.0 ∙ omega arith, p.1)) (λ x w' p. p) in
      done.at w refl

-- An error that is only wrapped is still an error.
pub PurgeStatement-wrapped :
    {W E F : Type 0} {statement : Io W E ℕ} {batch : ℕ} {stale : W → ℕ} (f : E → F)
    → PurgeStatement statement batch stale
    → PurgeStatement (map_err f statement) batch stale
PurgeStatement-wrapped f law = record {
  run_lem = λ n. Triple-map_err f (law.run_lem n) (λ e w h k. cc) (λ w h k. h refl);
}
