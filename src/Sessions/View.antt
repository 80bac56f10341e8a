-- ===== src/Sessions/View.antt =====
-- What the documentation of `trait InboxStore` says of transactions that run side by side: the
-- committed rows, the rows that each open transaction holds until it ends, and what the handlers
-- have done, committed and not.
use txbox.Common.{ℕ, ◌+◌, Bool, true, false, ◌||◌, ◌≡◌, ◌⊎◌, if◌then◌else◌, ◌==◌, nat_eq}
use txbox.Error.{HandlerError}
use txbox.Io.{Io}
use txbox.Io.Triple.{Triple}
use txbox.Sessions.{update}
use txbox.Store.{InboxStore}
use txbox.Types.{Claim, ClaimRequest, ConsumerId, MessageId, consumer_id_eq, message_id_eq}

-- The key of a row.
abbrev pub Entry : Type 0
Entry = ConsumerId × MessageId

abbrev pub same_entry : Entry → Entry → Bool
same_entry x y = if x.0 == y.0 then x.1 == y.1 else false

-- `effects` and `work` count how often the handlers have acted on a message. `used`, `held` and
-- `work` are of the connections of the pool, by their numbers.
pub record View : Type 0 where
  pub rows : Entry → Bool
  pub effects : Entry → ℕ
  pub used : ℕ → Bool
  pub held : ℕ → Entry → Bool
  pub work : ℕ → Entry → ℕ

abbrev pub opened : ℕ → View → View
opened n v = record v {
  used = update v.used n true;
  held = update v.held n (λ _. false);
  work = update v.work n (λ _. 0);
}

abbrev pub closed : ℕ → View → View
closed n v = record v {
  used = update v.used n false;
  held = update v.held n (λ _. false);
  work = update v.work n (λ _. 0);
}

abbrev pub taken : ℕ → Entry → View → View
taken n e v = record v { held = update v.held n (λ x. v.held n x || same_entry x e) }

abbrev pub worked : ℕ → (Entry → ℕ) → View → View
worked n f v = record v { work = update v.work n f }

abbrev pub committed : ℕ → View → View
committed n v =
    closed n
      (record v { rows = λ x. v.rows x || v.held n x; effects = λ x. v.effects x + v.work n x })

-- A claim is fresh if the row is neither committed nor held by any transaction, which holds it then;
-- a duplicate is committed, or held by this transaction.
abbrev pub Claimed : ℕ → Entry → View → Claim → View → Type 0
Claimed n e v Claim.fresh v' =
    (v.rows e ≡ false) × ((k : ℕ) → v.held k e ≡ false) × (v' ≡ taken n e v)
Claimed n e v Claim.duplicate v' = ((v.rows e ≡ true) ⊎ (v.held n e ≡ true)) × (v' ≡ v)

pub record Isolation {W E : Type 0} (s : InboxStore W E) : Type 1 where
  pub view : W → View
  -- the connection that a transaction runs on
  pub slot : s.Tx → ℕ
  pub begin_lem :
      (v : View)
      → Triple
          (λ w. view w ≡ v)
          s.begin
          (λ tx w. (v.used (slot tx) ≡ false) × (view w ≡ opened (slot tx) v))
          (λ _ w. view w ≡ v)
  -- A claim that waits too long, fails or is cancelled may hold the row until its transaction ends.
  pub claim_lem :
      (tx : s.Tx) (r : ClaimRequest) (v : View)
      → v.used (slot tx) ≡ true
      → Triple
          (λ w. view w ≡ v)
          (s.claim (s.conn tx) r)
          (λ k w. Claimed (slot tx) (r.consumer, r.id) v k (view w))
          (λ _ w. closed (slot tx) (view w) ≡ closed (slot tx) v)
  -- A commit that reports an error may have gone through, as a whole.
  pub commit_lem :
      (tx : s.Tx) (v : View)
      → v.used (slot tx) ≡ true
      → Triple
          (λ w. view w ≡ v)
          (s.commit tx)
          (λ _ w. view w ≡ committed (slot tx) v)
          (λ _ w. (view w ≡ closed (slot tx) v) ⊎ (view w ≡ committed (slot tx) v))
  pub rollback_lem :
      (tx : s.Tx) (v : View)
      → v.used (slot tx) ≡ true
      → Triple
          (λ w. view w ≡ v)
          (s.rollback tx)
          (λ _ w. view w ≡ closed (slot tx) v)
          (λ _ w. view w ≡ closed (slot tx) v)
  pub drop_lem : (tx : s.Tx) (w : W) → view (s.drop tx w) ≡ closed (slot tx) (view w)

-- A handler works on the connection that it is given, and leaves the rows of the inbox to the
-- library; where it succeeds, it has acted on its message once.
pub record HandlerIsolation {W E T : Type 0} (s : InboxStore W E) (k : Isolation s)
    (consumer : ConsumerId) (handler : MessageId → s.Conn → Io W (HandlerError E) T) : Type 0 where
  pub run_lem :
      (tx : s.Tx) (id : MessageId) (v : View)
      → v.used (k.slot tx) ≡ true
      → Triple
          (λ w. k.view w ≡ v)
          (handler id (s.conn tx))
          (λ _ w.
            k.view w
            ≡ worked
                (k.slot tx)
                (λ x. v.work (k.slot tx) x + (if same_entry x (consumer, id) then 1 else 0))
                v)
          (λ _ w. (f : Entry → ℕ) × (k.view w ≡ worked (k.slot tx) f v))
