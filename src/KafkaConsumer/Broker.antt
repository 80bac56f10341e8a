-- ===== src/KafkaConsumer/Broker.antt =====
-- What Kafka documents of one partition and its consumer group: messages are read in order from a
-- position, and after a restart from an offset that was committed. A commit that is not awaited
-- (`CommitMode::Async`) may take effect later, or not at all.
use txbox.Common.{ℕ, suc, ◌≡◌, ◌⊎◌, some, List, ◌∷◌, get_elem?, contains, nat_eq, true}
use txbox.Io.Triple.{Triple}
use txbox.KafkaConsumer.{StreamConsumer}

-- `log` is the partition. `resumes` are the offsets that the group may resume from: the one that is
-- committed, and those asked for since.
pub record Broker {K E : Type 0} (kafka : StreamConsumer K E) (log : List kafka.Message)
    : Type 0 where
  pub position : K → ℕ
  pub resumes : K → List ℕ
  pub offset : kafka.Message → ℕ
  pub offset_lem : (i : ℕ) (m : kafka.Message) → get_elem? log i ≡ some m → offset m ≡ i
  pub recv_lem :
      (p : ℕ) (rs : List ℕ)
      → Triple
          (λ w. (position w ≡ p) × (resumes w ≡ rs))
          kafka.recv
          (λ m w. (get_elem? log p ≡ some m) × (position w ≡ suc p) × (resumes w ≡ rs))
          (λ _ w. resumes w ≡ rs)
  pub commit_lem :
      (m : kafka.Message) (p : ℕ) (rs : List ℕ)
      → Triple
          (λ w. (position w ≡ p) × (resumes w ≡ rs))
          (kafka.commit_message m)
          (λ _ w. (position w ≡ p) × (resumes w ≡ suc (offset m) ∷ rs))
          (λ _ w. (resumes w ≡ rs) ⊎ (resumes w ≡ suc (offset m) ∷ rs))
  -- the consumer, started anew
  pub restart : K → K
  pub restart_lem : (w : K) → contains (resumes w) (position (restart w)) ≡ true
  pub restart-resumes : (w : K) → resumes (restart w) ≡ resumes w
