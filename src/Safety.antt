-- ===== src/Safety.antt =====
-- The lifecycle of trading permissions, crates/trading/src/risk/safety.rs. Logging is left out. The message and the reason of a rejection are made from the mode's name
-- alone, so the error holds that name.
pub mod Placement
mod Tests
use Prim.Native.String.{String}
use hype_edge.Common.{Bool, true, false, ◌||◌, Option, none, some, if◌then◌else◌}
use hype_edge.Common.Result.{Result, ok, err}
use hype_edge.Decimal.{Decimal}
use hype_edge.Order.{Side, OrderType, TimeInForce}
use hype_edge.Common.{ℕ}

pub data SafetyMode : Type 0 where
  starting reconciling normal reduce_only cancel_only halting halted recovering : SafetyMode

unfoldable pub as_str : SafetyMode → String
as_str starting = "starting"
as_str reconciling = "reconciling"
as_str normal = "normal"
as_str reduce_only = "reduce_only"
as_str cancel_only = "cancel_only"
as_str halting = "halting"
as_str halted = "halted"
as_str recovering = "recovering"

pub record OrderIntent : Type 0 where
  pub symbol : String
  pub side : Side
  pub size : Decimal
  pub price : Option Decimal
  pub order_type : OrderType
  pub time_in_force : TimeInForce
  pub strategy_id : Option String
  pub sub_account : Option String
  pub is_reduce_only : Bool
  pub cloid : Option String
  pub client_id : Option String
  pub is_spot : Bool
  pub risk_reducing : Bool
  pub max_slippage_bps : ℕ

pub data SafetyError : Type 0 where
  kill_switch_triggered : Option String → SafetyError
  order_rejected : String → Option String → SafetyError

pub record SafetyState : Type 0 where
  pub mode : SafetyMode
  pub reason : Option String

unfoldable pub new : SafetyMode → SafetyState
new mode = record { mode = mode; reason = none }

unfoldable pub transition : SafetyState → SafetyMode → Option String → SafetyState
transition s mode reason = record { mode = mode; reason = reason }

unfoldable pub is_halt : SafetyMode → Bool
is_halt halting = true
is_halt halted = true
is_halt _ = false

unfoldable pub enter_cancel_only : SafetyState → String → SafetyState
unfolding is_halt transition
enter_cancel_only s reason = if is_halt s.mode then s else transition s cancel_only (some reason)

unfoldable pub placement_in :
    SafetyMode → Option String → OrderIntent → Result SafetyError (Unit {0})
unfolding as_str
placement_in normal reason i = ok tt
placement_in reduce_only reason i =
    if i.is_reduce_only || i.risk_reducing
    then ok tt
    else err (order_rejected "reduce_only" i.cloid)
placement_in halting reason i = err (kill_switch_triggered reason)
placement_in halted reason i = err (kill_switch_triggered reason)
placement_in mode reason i = err (order_rejected (as_str mode) i.cloid)

unfoldable pub check_placement : SafetyState → OrderIntent → Result SafetyError (Unit {0})
unfolding placement_in
check_placement s i = placement_in s.mode s.reason i

unfoldable pub close_in : SafetyMode → Result SafetyError (Unit {0})
unfolding as_str
close_in starting = err (order_rejected (as_str starting) none)
close_in reconciling = err (order_rejected (as_str reconciling) none)
close_in _ = ok tt

unfoldable pub check_emergency_close : SafetyState → Result SafetyError (Unit {0})
unfolding close_in
check_emergency_close s = close_in s.mode
