-- ===== src/Safety/Tests.antt =====
-- Placements in concrete lifecycle states.
use hype_edge.Common.{◌≡◌, ◌≢◌, refl, true, false, none, some, [], ◌∷◌}
use hype_edge.Common.Int.{pos}
use hype_edge.Common.Result.{ok, err}
use hype_edge.Order.{Side, OrderType, TimeInForce}
use hype_edge.Safety.{
  reduce_only, halted, SafetyState, OrderIntent, check_placement, is_halt, kill_switch_triggered,
  placement_in,
}
use hype_edge.Safety.Placement.{degrade, degrade_blocks}

abbrev closing : OrderIntent
closing = record {
  symbol = "BTC";
  side = Side.sell;
  size = record { raw = pos 5 };
  price = none;
  order_type = OrderType.market;
  time_in_force = TimeInForce.ioc;
  strategy_id = none;
  sub_account = none;
  is_reduce_only = true;
  cloid = some "c";
  client_id = none;
  is_spot = false;
  risk_reducing = false;
  max_slippage_bps = 50;
}

abbrev reducing : SafetyState
reducing = record { mode = reduce_only; reason = none }

abbrev stopped : SafetyState
stopped = record { mode = halted; reason = some "operator" }

closing_in_halt : check_placement stopped closing ≡ err (kill_switch_triggered (some "operator"))
unfolding check_placement placement_in
closing_in_halt = refl

degrade_blocks_example :
    (check_placement (degrade reducing ("stale" ∷ [])) closing ≢ ok tt)
    × (is_halt (degrade reducing ("stale" ∷ [])).mode ≡ is_halt reduce_only)
degrade_blocks_example = degrade_blocks reducing "stale" [] closing
