-- ===== src/Canary/Tests.antt =====
-- The gates at concrete evidence.
use hype_edge.Common.{ℕ, ◌≡◌, ◌≤◌, refl, true, none, some, arith, inl, ◌^◌, ◌-◌}
use hype_edge.Common.Int.{pos, negsuc, ◌-ℤ◌, neg}
use hype_edge.Decimal.{Decimal, decimal_zero, negate}
use hype_edge.Canary.{
  paused, CanaryRiskEnvelope, CanaryObservation, ReleaseEvidence, elapsed, evaluate_live,
}
use hype_edge.Canary.Severity.{severity, IsWorse, evaluate_live_mono}

abbrev unit : ℕ → Decimal
unit n = record { raw = pos n }

abbrev evidence : ReleaseEvidence
evidence = record {
  shadow_complete_utc_days = pos 14;
  testnet_clean_utc_days = pos 20;
  reconciliation_diff_count = 0;
  duplicate_order_count = 0;
  risk_bypass_count = 0;
  hard_inventory_breach_count = 0;
  unresolved_unknown_count = 0;
  pessimistic_net_edge_usdc = unit 1;
  projected_runway_hours = unit 5;
  required_runway_hours = unit 5;
}

abbrev envelope : CanaryRiskEnvelope
envelope = record {
  version = pos 1;
  max_deployed_equity = unit 100;
  max_quote_notional = unit 10;
  max_daily_loss = unit 5;
  max_cumulative_loss = unit 20;
  max_daily_actions = pos 50;
  max_total_actions = pos 500;
  min_action_credits = pos 10;
  min_cancel_headroom = pos 10;
  max_forced_flatten_count = pos 1;
  max_forced_flatten_cost = unit 1;
  unknown_sla = 1000;
  max_duration = 100_000_000;
  max_filled_volume = unit 1000;
}

abbrev calm : CanaryObservation
calm = record {
  observed_at = pos 50;
  started_at = pos 0;
  deployed_equity = unit 90;
  live_quote_notional = unit 5;
  daily_pnl = decimal_zero;
  cumulative_pnl = decimal_zero;
  daily_actions = pos 20;
  total_actions = pos 100;
  action_credits = pos 20;
  cancel_headroom = pos 20;
  forced_flatten_count = pos 0;
  forced_flatten_cost = decimal_zero;
  oldest_unknown_age = none;
  filled_volume = unit 100;
  reconciliation_healthy = true;
  market_data_healthy = true;
  account_healthy = true;
}

-- A loss of six, above the daily limit.
abbrev losing : CanaryObservation
losing = record calm { daily_pnl = record { raw = negsuc 5 }; oldest_unknown_age = some 3 }

losing_is_paused : (evaluate_live envelope losing).directive ≡ paused
unfolding evaluate_live elapsed negate neg ◌-ℤ◌
losing_is_paused = refl

losing-IsWorse : IsWorse calm losing
losing-IsWorse = record {
  time = omega arith;
  equity = omega arith;
  notional = omega arith;
  daily_loss = omega arith;
  cumulative_loss = omega arith;
  daily = omega arith;
  total = omega arith;
  credits = omega arith;
  headroom = omega arith;
  flattened = omega arith;
  flatten_cost = omega arith;
  unknown_age = tt;
  volume = omega arith;
  reconciliation = inl refl;
  market_data = inl refl;
  account = inl refl;
}

evaluate_live_mono_example :
    severity (evaluate_live envelope calm).directive
    ≤ severity (evaluate_live envelope losing).directive
unfolding ◌-ℤ◌
evaluate_live_mono_example =
    evaluate_live_mono envelope calm losing (omega arith) (omega arith) losing-IsWorse

-- The largest time less -1 wraps to the smallest.
wrapped_time :
    elapsed (record calm { observed_at = pos (2 ^ 63 - 1); started_at = negsuc 0 })
    ≡ negsuc (2 ^ 63 - 1)
unfolding elapsed ◌-ℤ◌
wrapped_time = refl
