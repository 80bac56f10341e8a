-- ===== src/Sqlx/Reliable.antt =====
-- When the calls of sqlx return.
use Prim.Native.String.{String}
use txbox.Common.{List}
use txbox.Io.{Flow, ret, fail, stop, Io, map_err}
use txbox.Io.Triple.{Ends, Triple-map_err}
use txbox.Sqlx.{Bind, Driver}
use txbox.Store.Reliable.{Returns}

pub record ReliableDriver {W E : Type 0} (q : Driver W E) (Faulty : Type 0) : Type 0 where
  pub begin_lem : Returns Faulty q.begin
  pub commit_lem : (tx : q.Tx) → Returns Faulty (q.commit tx)
  pub rollback_lem : (tx : q.Tx) → Returns Faulty (q.rollback tx)
  pub execute_lem :
      (conn : q.Conn) (sql : String) (binds : List Bind) → Returns Faulty (q.execute conn sql binds)
  pub fetch_all_lem :
      (conn : q.Conn) (sql : String) (binds : List Bind)
      → Returns Faulty (q.fetch_all conn sql binds)

-- The error is wrapped.
pub Returns-map_err :
    {W E F A Faulty : Type 0} {m : Io W E A} (f : E → F)
    → Returns Faulty m
    → Returns Faulty (map_err f m)
Returns-map_err f t = Triple-map_err f t (λ e w h. h) (λ w h. h)

Ends-faulty :
    {W E A Faulty : Type 0} (r : Flow E A) (w : W)
    → Faulty
    → Ends (λ _ _. Unit {0}) (λ _ _. Faulty) r w
Ends-faulty (ret a) w x = tt
Ends-faulty (fail e) w x = x
Ends-faulty stop w x = x

-- Where a call has been `Faulty`, the rest may end as it will.
pub Returns-faulty : {W E A Faulty : Type 0} (m : Io W E A) → Faulty → Returns Faulty m
Returns-faulty m x = record { at = λ w h. Ends-faulty (m w).0 (m w).1 x }
