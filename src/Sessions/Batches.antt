-- ===== src/Sessions/Batches.antt =====
-- Batches of src/consumer.rs that several sessions claim at once, with the locks of their rows: as
-- `trait InboxStore` asks of a backend, the rows are taken in the order in which `claim_many` has
-- them claimed, and each is held until the transaction ends.
use txbox.Common.{ℕ, ◌<◌, ◌≡◌, ◌≢◌, false, List, [], ◌∷◌, contains, nat_eq}
use txbox.Consumer.Taken.{rows_taken}
use txbox.Sessions.{update}
use txbox.Types.{Claim, ConsumerId, MessageId, message_id_eq}

-- A session: the rows that it holds, and those that its `claim_many` has still to take.
pub record Batch : Type 0 where
  pub held : List MessageId
  pub left : List MessageId

-- No transaction.
abbrev pub resting : Batch
resting = record { held = []; left = [] }

-- A call of `Consumer::claim_many` on a new transaction, for rows that answer as `reply` says: it
-- takes the rows that the call has the store claim, in that order.
abbrev pub batch : ConsumerId → (MessageId → Claim) → List MessageId → Batch
batch c reply ids = record { held = []; left = rows_taken c reply ids }

-- No other session holds the row.
abbrev pub Free : ℕ → (ℕ → Batch) → ℕ → MessageId → Type 0
Free n s i m = (j : ℕ) → j < n → j ≢ i → contains (s j).held m ≡ false

-- What a session can do by itself: take its next row, once nobody else holds it, or end its
-- transaction, once it has taken all.
pub data Move (n : ℕ) (s : ℕ → Batch) (i : ℕ) : Batch → Type 0 where
  takes :
      (m : MessageId) (ms : List MessageId)
      → (s i).left ≡ m ∷ ms
      → Free n s i m
      → Move n s i (record { held = m ∷ (s i).held; left = ms })
  ends :
      (h : MessageId) (hs : List MessageId)
      → (s i).held ≡ h ∷ hs
      → (s i).left ≡ []
      → Move n s i resting

-- One step of any session of the consumer `c`. A call that fails or is dropped ends its transaction at any time; a
-- session without one begins a batch.
pub data Step (c : ConsumerId) (n : ℕ) (s : ℕ → Batch) : (ℕ → Batch) → Type 0 where
  moves : (i : ℕ) {b : Batch} → i < n → Move n s i b → Step c n s (update s i b)
  leaves : (i : ℕ) → i < n → Step c n s (update s i resting)
  begins :
      (i : ℕ) (reply : MessageId → Claim) (ids : List MessageId)
      → i < n
      → Step c n s (update s i (batch c reply ids))

pub data Reach (c : ConsumerId) (n : ℕ) : (ℕ → Batch) → Type 0 where
  start : Reach c n (λ _. resting)
  later : {s t : ℕ → Batch} → Reach c n s → Step c n s t → Reach c n t

-- Moves of the sessions, one after the other.
pub data Moves (n : ℕ) : (ℕ → Batch) → (ℕ → Batch) → Type 0 where
  stay : {s : ℕ → Batch} → Moves n s s
  onward :
      {s u : ℕ → Batch} (i : ℕ) {b : Batch}
      → i < n
      → Move n s i b
      → Moves n (update s i b) u
      → Moves n s u
