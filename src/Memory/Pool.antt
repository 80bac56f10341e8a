-- ===== src/Memory/Pool.antt =====
-- A backend in memory over a pool of two connections, whose transactions run side by side. A claim
-- of a row that the other connection holds waits, which ends only when its future is dropped.
pub mod Laws
use txbox.Common.{
  ℕ, zero, suc, ◌+◌, ◌≡◌, ◌⊎◌, refl, ◌∙◌, sym, subst, Option, fun_ext, ap, inl, inr, Bool, true,
  false, not, ◌||◌, Bool-cases, if◌then◌else◌, nat_eq, arith,
}
use txbox.Error.{HandlerError, InboxError}
use txbox.Io.{Io, Flow, ret, stop, pure}
use txbox.Io.Triple.{Triple, Ends, Gives}
use txbox.Sessions.View.{
  Entry, View, opened, closed, taken, worked, committed, same_entry, Claimed, Isolation,
  HandlerIsolation,
}
use txbox.Store.{InboxStore}
use txbox.Types.{Claim, ConsumerId, MessageId}

pub record Session : Type 0 where
  pub used : Bool
  pub held : Entry → Bool
  pub work : Entry → ℕ

pub record Shared : Type 0 where
  pub rows : Entry → Bool
  pub effects : Entry → ℕ
  pub first : Session
  pub second : Session

-- A session that is not in use.
abbrev pub resting : Session
resting = record { used = false; held = λ e. false; work = λ e. 0 }

-- The connection that a handle names, and the other one.
abbrev pub at : Bool → Shared → Session
at true w = w.first
at false w = w.second

abbrev pub set : Bool → Session → Shared → Shared
set true c w = record w { first = c }
set false c w = record w { second = c }

abbrev pub number : Bool → ℕ
number true = 0
number false = 1

abbrev pub session_of : Shared → ℕ → Session
session_of w zero = w.first
session_of w (suc zero) = w.second
session_of w (suc (suc n)) = resting

abbrev pub view_of : Shared → View
view_of w = record {
  rows = w.rows;
  effects = w.effects;
  used = λ n. (session_of w n).used;
  held = λ n. (session_of w n).held;
  work = λ n. (session_of w n).work;
}

abbrev pub acquire : Io Shared (InboxError ℕ) Bool
acquire w =
    if not w.first.used
    then (ret true, set true (record resting { used = true }) w)
    else if not w.second.used
    then (ret false, set false (record resting { used = true }) w)
    else (stop, w)

abbrev pub end : Bool → Shared → Shared
end tx w = set tx resting w

abbrev pub make_permanent : Bool → Shared → Shared
make_permanent tx w = end tx (record w {
  rows = λ e. w.rows e || (at tx w).held e;
  effects = λ e. w.effects e + (at tx w).work e;
})

abbrev pub take_row : Bool → Entry → Shared → Shared
take_row tx e w = set tx (record (at tx w) { held = λ x. (at tx w).held x || same_entry x e }) w

abbrev pub claim_row : Bool → Entry → Io Shared (InboxError ℕ) Claim
claim_row tx e w =
    if w.rows e || (at tx w).held e
    then (ret Claim.duplicate, w)
    else if (at (not tx) w).held e
    then (stop, w)
    else (ret Claim.fresh, take_row tx e w)

abbrev pub pool : InboxStore Shared ℕ
pool = record {
  Conn = Bool;
  Tx = Bool;
  conn = λ tx. tx;
  drop = end;
  begin = acquire;
  commit = λ tx w. (ret tt, make_permanent tx w);
  rollback = λ tx w. (ret tt, end tx w);
  claim = λ tx r. claim_row tx (r.consumer, r.id);
  claim_many = λ tx b w. (stop, w);
  is_known_duplicate = λ c id. pure false;
  purge = λ policy. pure 0;
}

-- The handler acts on its message once.
abbrev pub act : ConsumerId → MessageId → Bool → Io Shared (HandlerError ℕ) ℕ
act c id tx w = (
  ret 1,
  set tx
      (record (at tx w) { work = λ x. (at tx w).work x + (if same_entry x (c, id) then 1 else 0) })
      w,
)
