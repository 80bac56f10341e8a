-- ===== src/KafkaConsumer/Worlds.antt =====
-- The database and Kafka side by side: what is done to one leaves the other alone.
use txbox.Common.{Option}
use txbox.Io.{Io, Flow, ret, fail, stop}
use txbox.Io.Triple.{Triple, Ends}
use txbox.KafkaConsumer.{on_db, on_kafka}

module _ {D K E A : Type 0} where
  Ends-on_db :
      (Q : A → D → Type 0) (R : Option E → D → Type 0) (F : K → Type 0) (k : K) (r : Flow E A)
      (d : D)
      → F k
      → Ends Q R r d
      → Ends (λ a (w : D × K). Q a w.0 × F w.1) (λ x w. R x w.0 × F w.1) r (d, k)
  Ends-on_db Q R F k (ret a) d f h = (h, f)
  Ends-on_db Q R F k (fail e) d f h = (h, f)
  Ends-on_db Q R F k stop d f h = (h, f)

  -- What the database does leaves Kafka alone.
  pub Triple-on_db :
      {P : D → Type 0} {Q : A → D → Type 0} {R : Option E → D → Type 0} {m : Io D E A}
      (F : K → Type 0)
      → Triple P m Q R
      → Triple
          (λ (w : D × K). P w.0 × F w.1)
          (on_db m)
          (λ a w. Q a w.0 × F w.1)
          (λ x w. R x w.0 × F w.1)
  Triple-on_db {Q} {R} {m} F t = record {
    at = λ w h. Ends-on_db Q R F w.1 (m w.0).0 (m w.0).1 h.1 (t.at w.0 h.0);
  }

module _ {D K E A : Type 0} where
  Ends-on_kafka :
      (Q : A → K → Type 0) (R : Option E → K → Type 0) (F : D → Type 0) (d : D) (r : Flow E A)
      (k : K)
      → F d
      → Ends Q R r k
      → Ends (λ a (w : D × K). F w.0 × Q a w.1) (λ x w. F w.0 × R x w.1) r (d, k)
  Ends-on_kafka Q R F d (ret a) k f h = (f, h)
  Ends-on_kafka Q R F d (fail e) k f h = (f, h)
  Ends-on_kafka Q R F d stop k f h = (f, h)

  -- What Kafka does leaves the database alone.
  pub Triple-on_kafka :
      {P : K → Type 0} {Q : A → K → Type 0} {R : Option E → K → Type 0} {m : Io K E A}
      (F : D → Type 0)
      → Triple P m Q R
      → Triple
          (λ (w : D × K). F w.0 × P w.1)
          (on_kafka m)
          (λ a w. F w.0 × Q a w.1)
          (λ x w. F w.0 × R x w.1)
  Triple-on_kafka {Q} {R} {m} F t = record {
    at = λ w h. Ends-on_kafka Q R F w.0 (m w.1).0 (m w.1).1 h.0 (t.at w.1 h.1);
  }
