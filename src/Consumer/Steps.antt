-- ===== src/Consumer/Steps.antt =====
-- `Consumer::process` cut at its awaits: where a call stands, and what it does until the next await
-- has ended.
use txbox.Common.{ℕ, zero, suc, ◌≡◌, ◌∙◌}
use txbox.Consumer.{Consumer, claim, settle, on_claim, process}
use txbox.Error.{HandlerError, InboxError}
use txbox.Io.{Io, pure, panic, attempt, or_drop, ◌>>=◌, ◌>>◌}
use txbox.Io.Laws.{bind-cong, bind-bind, bind-pure}
use txbox.Result.{Result}
use txbox.Types.{Claim, MessageId, Outcome}

-- `idle` is a call that has not begun, or that ended by an error, a panic or a cancellation.
pub data Pc (Tx E T : Type 0) : Type 0 where
  idle : Pc Tx E T
  start : MessageId → Pc Tx E T
  claiming : Tx → MessageId → Pc Tx E T
  claimed : Tx → MessageId → Claim → Pc Tx E T
  handled : Tx → MessageId → Result (HandlerError E) T → Pc Tx E T
  done : MessageId → Outcome T → Pc Tx E T

module _ {W E T : Type 0} (c : Consumer W E)
    (handler : MessageId → c.store.Conn → Io W (HandlerError E) T) where
  unfoldable pub advance : Pc c.store.Tx E T → Io W (InboxError E) (Pc c.store.Tx E T)
  unfolding claim settle
  advance Pc.idle = pure Pc.idle
  advance (Pc.start id) = do tx ← c.store.begin; pure (Pc.claiming tx id)
  advance (Pc.claiming tx id) = do
    k ← or_drop (c.store.drop tx) (claim c (c.store.conn tx) id)
    pure (Pc.claimed tx id k)
  advance (Pc.claimed tx id Claim.duplicate) = do
    c.store.rollback tx
    pure (Pc.done id Outcome.duplicate)
  advance (Pc.claimed tx id Claim.fresh) = do
    result ← or_drop (c.store.drop tx) (attempt (handler id (c.store.conn tx)))
    pure (Pc.handled tx id result)
  advance (Pc.handled tx id result) = do o ← settle c tx result; pure (Pc.done id o)
  advance (Pc.done id o) = pure (Pc.done id o)

  advance_many : ℕ → Pc c.store.Tx E T → Io W (InboxError E) (Pc c.store.Tx E T)
  unfolding advance
  advance_many zero p = pure p
  advance_many (suc n) p = advance p >>= advance_many n

  -- What a finished call answers.
  abbrev answered : Pc c.store.Tx E T → Io W (InboxError E) (Outcome T)
  answered (Pc.done id o) = pure o
  answered p = panic

  -- One await, then `n` more.
  advance-then :
      {A : Type 0} (m : Io W (InboxError E) A) (f : A → Pc c.store.Tx E T) (n : ℕ) (w : W)
      → (((m >>= λ a. pure (f a)) >>= advance_many n) >>= answered) w
        ≡ (m >>= λ a. advance_many n (f a) >>= answered) w
  advance-then m f n w =
      bind-bind (m >>= λ a. pure (f a)) (advance_many n) answered w
      ∙ bind-bind m (λ a. pure (f a)) (λ p. advance_many n p >>= answered) w

  advance-on_claim :
      (tx : c.store.Tx) (id : MessageId) (k : Claim) (w : W)
      → (advance_many 2 (Pc.claimed tx id k) >>= answered) w ≡ on_claim c tx (handler id) k w
  unfolding advance_many on_claim
  advance-on_claim tx id Claim.duplicate w =
      advance-then (c.store.rollback tx) (λ _. Pc.done id Outcome.duplicate) 1 w
  advance-on_claim tx id Claim.fresh w =
      advance-then (or_drop (c.store.drop tx) (attempt (handler id (c.store.conn tx))))
        (λ r. Pc.handled tx id r) 1 w
      ∙ bind-cong (or_drop (c.store.drop tx) (attempt (handler id (c.store.conn tx))))
          (λ r w1.
            advance-then (settle c tx r) (λ o. Pc.done id o) 0 w1 ∙ bind-pure (settle c tx r) w1)
          w

  -- Cut at its awaits and run alone, a call of `process` is over after four of them, with the same
  -- result and the same world.
  advance_many-process :
      (id : MessageId) (w : W)
      → (advance_many 4 (Pc.start id) >>= answered) w ≡ process c id (handler id) w
  unfolding advance_many process
  advance_many-process id w =
      advance-then c.store.begin (λ tx. Pc.claiming tx id) 3 w
      ∙ bind-cong c.store.begin
          (λ tx w1.
            advance-then (or_drop (c.store.drop tx) (claim c (c.store.conn tx) id))
              (λ k. Pc.claimed tx id k) 2 w1
            ∙ bind-cong (or_drop (c.store.drop tx) (claim c (c.store.conn tx) id))
                (λ k w2. advance-on_claim tx id k w2) w1)
          w
