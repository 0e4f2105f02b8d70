-- ===== src/Order.antt =====
-- The order lifecycle: the enumerations of crates/domain/src/enums.rs, `Order` of
-- crates/domain/src/models.rs and the state machine of crates/trading/src/execution/order_state.rs.
-- Logging is left out. A time is a number of nanoseconds since the epoch.
pub mod Lifecycle
pub mod History
pub mod Names
mod Tests
use Prim.Native.String.{String}
use text.Mathlib.Text.{◌==◌ as str_eq}
use hype_edge.Common.{ℕ, Bool, true, false, Option, none, some, List, [], ◌∷◌, if◌then◌else◌}
use hype_edge.Common.Int.{ℤ}
use hype_edge.Common.Result.{Result, ok, err}
use hype_edge.Decimal.{Decimal, decimal_zero, sub}

pub data Side : Type 0 where
  buy sell : Side

pub data OrderType : Type 0 where
  limit market stop_market stop_limit : OrderType

pub data TimeInForce : Type 0 where
  gtc ioc alo gtx : TimeInForce

pub data OrderStatus : Type 0 where
  pending submitted submit_unknown acknowledged partial_fill cancel_unknown : OrderStatus
  filled cancelled rejected expired : OrderStatus

unfoldable pub as_str : OrderStatus → String
as_str pending = "pending"
as_str submitted = "submitted"
as_str submit_unknown = "submit_unknown"
as_str acknowledged = "acknowledged"
as_str partial_fill = "partial_fill"
as_str cancel_unknown = "cancel_unknown"
as_str filled = "filled"
as_str cancelled = "cancelled"
as_str rejected = "rejected"
as_str expired = "expired"

unfoldable pub from_str : String → Option OrderStatus
from_str s =
    if str_eq s "pending"
    then some pending
    else if str_eq s "submitted"
    then some submitted
    else if str_eq s "submit_unknown"
    then some submit_unknown
    else if str_eq s "acknowledged"
    then some acknowledged
    else if str_eq s "partial_fill"
    then some partial_fill
    else if str_eq s "cancel_unknown"
    then some cancel_unknown
    else if str_eq s "filled"
    then some filled
    else if str_eq s "cancelled"
    then some cancelled
    else if str_eq s "rejected"
    then some rejected
    else if str_eq s "expired"
    then some expired
    else none

unfoldable pub is_terminal : OrderStatus → Bool
is_terminal filled = true
is_terminal cancelled = true
is_terminal rejected = true
is_terminal expired = true
is_terminal _ = false

-- The table of legal moves.
unfoldable pub can_transition : OrderStatus → OrderStatus → Bool
can_transition pending submitted = true
can_transition pending rejected = true
can_transition pending cancelled = true
can_transition submitted acknowledged = true
can_transition submitted submit_unknown = true
can_transition submitted rejected = true
can_transition submitted filled = true
can_transition submitted cancelled = true
can_transition submitted cancel_unknown = true
can_transition submitted partial_fill = true
can_transition submitted expired = true
can_transition submit_unknown acknowledged = true
can_transition submit_unknown partial_fill = true
can_transition submit_unknown filled = true
can_transition submit_unknown cancelled = true
can_transition submit_unknown cancel_unknown = true
can_transition submit_unknown rejected = true
can_transition submit_unknown expired = true
can_transition acknowledged partial_fill = true
can_transition acknowledged filled = true
can_transition acknowledged cancelled = true
can_transition acknowledged cancel_unknown = true
can_transition acknowledged expired = true
can_transition partial_fill partial_fill = true
can_transition partial_fill filled = true
can_transition partial_fill cancelled = true
can_transition partial_fill cancel_unknown = true
can_transition partial_fill expired = true
can_transition cancel_unknown acknowledged = true
can_transition cancel_unknown partial_fill = true
can_transition cancel_unknown filled = true
can_transition cancel_unknown cancelled = true
can_transition cancel_unknown rejected = true
can_transition cancel_unknown expired = true
can_transition _ _ = false

pub record Order : Type 0 where
  pub cloid : String
  pub symbol : String
  pub side : Side
  pub size : Decimal
  pub price : Option Decimal
  pub order_type : OrderType
  pub time_in_force : TimeInForce
  pub status : OrderStatus
  pub strategy_id : Option String
  pub sub_account : Option String
  pub reduce_only : Bool
  pub is_spot : Bool
  pub risk_reducing : Bool
  pub max_slippage_bps : ℕ
  pub exchange_oid : Option String
  pub filled_size : Decimal
  pub avg_fill_price : Option Decimal
  pub submitted_at : Option ℤ
  pub acknowledged_at : Option ℤ
  pub filled_at : Option ℤ
  pub error_message : Option String
  pub created_at : ℤ

-- `now` is the reading of the clock.
unfoldable pub new :
    String → String → Side → Decimal → Option Decimal → OrderType → TimeInForce → ℤ → Order
new cloid symbol side size price order_type time_in_force now = record {
  cloid = cloid;
  symbol = symbol;
  side = side;
  size = size;
  price = price;
  order_type = order_type;
  time_in_force = time_in_force;
  status = pending;
  strategy_id = none;
  sub_account = none;
  reduce_only = false;
  is_spot = false;
  risk_reducing = false;
  max_slippage_bps = 50;
  exchange_oid = none;
  filled_size = decimal_zero;
  avg_fill_price = none;
  submitted_at = none;
  acknowledged_at = none;
  filled_at = none;
  error_message = none;
  created_at = now;
}

unfoldable pub remaining_size : Order → Decimal
unfolding sub
remaining_size o = sub o.size o.filled_size

-- `InvalidStateTransition` of the code's error type.
pub record TransitionError : Type 0 where
  pub from_status : OrderStatus
  pub to_status : OrderStatus
  pub error_cloid : Option String

-- The order with its new status, or the error with the order left as it was.
unfoldable pub transition : Order → OrderStatus → Result TransitionError Order
unfolding can_transition
transition o new_status =
    if can_transition o.status new_status
    then ok (record o { status = new_status })
    else err (record { from_status = o.status; to_status = new_status; error_cloid = some o.cloid })

-- A caller that keeps the order when the move is refused.
abbrev pub after : Order → Result TransitionError Order → Order
after o (ok o') = o'
after o (err e) = o

-- The moves that a history of events asks for, in order.
unfoldable pub run : Order → List OrderStatus → Order
run o [] = o
run o (s ∷ ss) = run (after o (transition o s)) ss
