-- ===== src/Canary.antt =====
-- The release gates of crates/trading/src/risk/canary.rs. A vector that checks push their reasons to
-- is a list of the checks, each with its reason, of which those that fire are kept. Counts that the
-- code has as u64 are natural numbers, i64 are integers, and a duration is a number of nanoseconds.
pub mod Gates
pub mod Severity
mod Tests
use Prim.Native.String.{String}
use hype_edge.Common.{
  ℕ, ◌/◌, ◌^◌, ◌%◌, ◌-◌, Bool, true, false, not, ◌&&◌, ◌||◌, Option, none, some, List, [], ◌∷◌,
  ◌++◌, ltb, leb, ◌==◌, any, if◌then◌else◌,
}
use hype_edge.Common.Int.{ℤ, pos, negsuc, ltb_ℤ, leb_ℤ, ◌-ℤ◌}
use hype_edge.Common.Result.{Result, ok, err}
use hype_edge.Decimal.{Decimal, negate, decimal_zero, decimal_one}

pub data CanaryDirective : Type 0 where
  running paused cancel_only halted : CanaryDirective

pub record CanaryRiskEnvelope : Type 0 where
  pub version : ℤ
  pub max_deployed_equity : Decimal
  pub max_quote_notional : Decimal
  pub max_daily_loss : Decimal
  pub max_cumulative_loss : Decimal
  pub max_daily_actions : ℤ
  pub max_total_actions : ℤ
  pub min_action_credits : ℤ
  pub min_cancel_headroom : ℤ
  pub max_forced_flatten_count : ℤ
  pub max_forced_flatten_cost : Decimal
  pub unknown_sla : ℕ
  pub max_duration : ℕ
  pub max_filled_volume : Decimal

pub record ReleaseEvidence : Type 0 where
  pub shadow_complete_utc_days : ℤ
  pub testnet_clean_utc_days : ℤ
  pub reconciliation_diff_count : ℕ
  pub duplicate_order_count : ℕ
  pub risk_bypass_count : ℕ
  pub hard_inventory_breach_count : ℕ
  pub unresolved_unknown_count : ℕ
  pub pessimistic_net_edge_usdc : Decimal
  pub projected_runway_hours : Decimal
  pub required_runway_hours : Decimal

pub record CanaryObservation : Type 0 where
  pub observed_at : ℤ
  pub started_at : ℤ
  pub deployed_equity : Decimal
  pub live_quote_notional : Decimal
  pub daily_pnl : Decimal
  pub cumulative_pnl : Decimal
  pub daily_actions : ℤ
  pub total_actions : ℤ
  pub action_credits : ℤ
  pub cancel_headroom : ℤ
  pub forced_flatten_count : ℤ
  pub forced_flatten_cost : Decimal
  pub oldest_unknown_age : Option ℕ
  pub filled_volume : Decimal
  pub reconciliation_healthy : Bool
  pub market_data_healthy : Bool
  pub account_healthy : Bool

pub record ExpansionEvidence : Type 0 where
  pub complete_utc_days : ℤ
  pub independent_inventory_episodes : ℕ
  pub regime_coverage_complete : Bool
  pub accounting_edge_ci95_lower : Decimal
  pub marginal_usdc_per_action : Decimal
  pub critical_reconciliation_diff_count : ℕ
  pub duplicate_order_count : ℕ
  pub hard_inventory_breach_count : ℕ
  pub unknown_with_terminal_fact_count : ℕ
  pub unknown_total_count : ℕ
  pub directional_concentration : Decimal

pub record GateDecision : Type 0 where
  pub allowed : Bool
  pub directive : CanaryDirective
  pub reasons : List String

pub record CanaryGateEvaluator : Type 0 where
  pub shadow_min_days : ℤ
  pub testnet_min_days : ℤ
  pub expansion_min_days : ℤ
  pub expansion_min_episodes : ℕ
  pub max_directional_concentration : Decimal

pub data EnvelopeError : Type 0 where
  version_not_positive negative_money negative_count daily_above_total time_not_positive :
      EnvelopeError
  sample_not_positive concentration_out_of_range : EnvelopeError

abbrev pub below_zero : Decimal → Bool
below_zero d = ltb_ℤ d.raw (pos 0)

unfoldable pub validate_envelope : CanaryRiskEnvelope → Result EnvelopeError (Unit {0})
validate_envelope e =
    let monetary =
      e.max_deployed_equity ∷ e.max_quote_notional ∷ e.max_daily_loss ∷ e.max_cumulative_loss
      ∷ e.max_forced_flatten_cost ∷ e.max_filled_volume ∷ [] in
    let counts =
      e.max_daily_actions ∷ e.max_total_actions ∷ e.min_action_credits ∷ e.min_cancel_headroom
      ∷ e.max_forced_flatten_count ∷ [] in
    if leb_ℤ e.version (pos 0)
    then err version_not_positive
    else if any below_zero monetary
    then err negative_money
    else if any (λ c. ltb_ℤ c (pos 0)) counts
    then err negative_count
    else if ltb_ℤ e.max_total_actions e.max_daily_actions
    then err daily_above_total
    else if (e.unknown_sla == 0) || (e.max_duration == 0)
    then err time_not_positive
    else ok tt

-- 0.50 and 1.25.
abbrev pub one_half : Decimal
one_half = record { raw = pos 500_000_000_000_000_000 }

abbrev pub marginal_gate : Decimal
marginal_gate = record { raw = pos 1_250_000_000_000_000_000 }

abbrev pub new : CanaryGateEvaluator
new = record {
  shadow_min_days = pos 14;
  testnet_min_days = pos 14;
  expansion_min_days = pos 30;
  expansion_min_episodes = 30;
  max_directional_concentration = one_half;
}

unfoldable pub with_limits : ℤ → ℤ → ℤ → ℕ → Decimal → Result EnvelopeError CanaryGateEvaluator
with_limits shadow testnet expansion episodes concentration =
    if leb_ℤ shadow (pos 0) || leb_ℤ testnet (pos 0) || leb_ℤ expansion (pos 0) || (episodes == 0)
    then err sample_not_positive
    else if leb_ℤ concentration.raw (pos 0) || ltb_ℤ decimal_one.raw concentration.raw
    then err concentration_out_of_range
    else ok (record {
      shadow_min_days = shadow;
      testnet_min_days = testnet;
      expansion_min_days = expansion;
      expansion_min_episodes = episodes;
      max_directional_concentration = concentration;
    })

-- The reasons of the checks that fire, in order.
abbrev pub fired : List (Bool × String) → List String
fired [] = []
fired (c ∷ cs) = if c.0 then c.1 ∷ fired cs else fired cs

abbrev pub is_empty : List String → Bool
is_empty [] = true
is_empty (r ∷ rs) = false

abbrev pub verdict : List String → GateDecision
verdict [] = record { allowed = true; directive = running; reasons = [] }
verdict (r ∷ rs) = record { allowed = false; directive = halted; reasons = r ∷ rs }

abbrev pub exceeds : Decimal → Decimal → Bool
exceeds a b = ltb_ℤ b.raw a.raw

unfoldable pub start_checks : CanaryGateEvaluator → ReleaseEvidence → List (Bool × String)
start_checks g e =
    (ltb_ℤ e.shadow_complete_utc_days g.shadow_min_days, "shadow_observation_incomplete")
    ∷ (ltb_ℤ e.testnet_clean_utc_days g.testnet_min_days, "testnet_soak_incomplete")
    ∷ (ltb 0 e.reconciliation_diff_count, "reconciliation_diff_present")
    ∷ (ltb 0 e.duplicate_order_count, "duplicate_orders_present")
    ∷ (ltb 0 e.risk_bypass_count, "risk_bypass_present")
    ∷ (ltb 0 e.hard_inventory_breach_count, "hard_inventory_breach_present")
    ∷ (ltb 0 e.unresolved_unknown_count, "unresolved_unknown_present")
    ∷ (below_zero e.pessimistic_net_edge_usdc, "pessimistic_edge_negative")
    ∷ (exceeds e.required_runway_hours e.projected_runway_hours, "action_runway_insufficient")
    ∷ []

unfoldable pub can_start_canary : CanaryGateEvaluator → ReleaseEvidence → GateDecision
unfolding start_checks
can_start_canary g e = verdict (fired (start_checks g e))

-- `as_millis() as i64`: the low 64 bits in two's complement.
abbrev pub as_i64 : ℕ → ℤ
as_i64 n = let u = n % 2 ^ 64 in if ltb u (2 ^ 63) then pos u else negsuc (2 ^ 64 - 1 - u)

-- The value of an i64 sum or difference in a release build: the low 64 bits in two's complement.
abbrev pub wrap_i64 : ℤ → ℤ
wrap_i64 (pos n) = as_i64 n
wrap_i64 (negsuc n) = as_i64 (2 ^ 64 - 1 - n % 2 ^ 64)

unfoldable pub elapsed : CanaryObservation → ℤ
elapsed o = wrap_i64 (o.observed_at -ℤ o.started_at)

abbrev pub older : Option ℕ → ℕ → Bool
older none sla = false
older (some age) sla = ltb sla age

unfoldable pub halted_checks : CanaryRiskEnvelope → CanaryObservation → List (Bool × String)
halted_checks e o =
    (not o.reconciliation_healthy, "reconciliation_unhealthy")
    ∷ (exceeds o.deployed_equity e.max_deployed_equity, "deployed_equity_limit")
    ∷ (exceeds (negate o.cumulative_pnl) e.max_cumulative_loss, "cumulative_loss_limit")
    ∷ (ltb_ℤ e.max_total_actions o.total_actions, "total_action_limit")
    ∷ (ltb_ℤ (as_i64 (e.max_duration / 1_000_000)) (elapsed o), "maximum_duration")
    ∷ (exceeds o.filled_volume e.max_filled_volume, "filled_volume_limit")
    ∷ (ltb_ℤ e.max_forced_flatten_count o.forced_flatten_count, "forced_flatten_count_limit")
    ∷ (exceeds o.forced_flatten_cost e.max_forced_flatten_cost, "forced_flatten_cost_limit")
    ∷ []

unfoldable pub cancel_only_checks : CanaryRiskEnvelope → CanaryObservation → List (Bool × String)
cancel_only_checks e o =
    (older o.oldest_unknown_age e.unknown_sla, "unknown_sla_exceeded")
    ∷ (ltb_ℤ o.action_credits e.min_action_credits, "action_credits_below_minimum")
    ∷ (ltb_ℤ o.cancel_headroom e.min_cancel_headroom, "cancel_headroom_below_minimum")
    ∷ (not o.market_data_healthy || not o.account_healthy, "runtime_data_unhealthy")
    ∷ []

unfoldable pub paused_checks : CanaryRiskEnvelope → CanaryObservation → List (Bool × String)
paused_checks e o =
    (exceeds o.live_quote_notional e.max_quote_notional, "quote_notional_limit")
    ∷ (exceeds (negate o.daily_pnl) e.max_daily_loss, "daily_loss_limit")
    ∷ (ltb_ℤ e.max_daily_actions o.daily_actions, "daily_action_limit")
    ∷ []

-- The most severe group with a reason decides, and the reasons of the milder ones follow.
abbrev pub decide : List String → List String → List String → GateDecision
decide (h ∷ hs) cs ps = record {
  allowed = false;
  directive = halted;
  reasons = ((h ∷ hs) ++ cs) ++ ps;
}
decide [] (c ∷ cs) ps = record {
  allowed = false;
  directive = cancel_only;
  reasons = (c ∷ cs) ++ ps;
}
decide [] [] (p ∷ ps) = record { allowed = false; directive = paused; reasons = p ∷ ps }
decide [] [] [] = record { allowed = true; directive = running; reasons = [] }

unfoldable pub evaluate_live : CanaryRiskEnvelope → CanaryObservation → GateDecision
unfolding halted_checks cancel_only_checks paused_checks
evaluate_live e o =
    decide (fired (halted_checks e o)) (fired (cancel_only_checks e o)) (fired (paused_checks e o))

unfoldable pub expand_checks : CanaryGateEvaluator → ExpansionEvidence → List (Bool × String)
expand_checks g e =
    (ltb_ℤ e.complete_utc_days g.expansion_min_days, "observation_window_incomplete")
    ∷ (
      ltb e.independent_inventory_episodes g.expansion_min_episodes,
      "inventory_episode_sample_insufficient",
    )
    ∷ (not e.regime_coverage_complete, "regime_coverage_incomplete")
    ∷ (leb_ℤ e.accounting_edge_ci95_lower.raw (pos 0), "accounting_edge_ci_not_positive")
    ∷ (exceeds marginal_gate e.marginal_usdc_per_action, "marginal_usdc_per_action_below_gate")
    ∷ (ltb 0 e.critical_reconciliation_diff_count, "critical_reconciliation_diff_present")
    ∷ (ltb 0 e.duplicate_order_count, "duplicate_orders_present")
    ∷ (ltb 0 e.hard_inventory_breach_count, "hard_inventory_breach_present")
    ∷ (
      not (e.unknown_with_terminal_fact_count == e.unknown_total_count),
      "unknown_without_terminal_fact",
    )
    ∷ (
      exceeds e.directional_concentration g.max_directional_concentration,
      "directional_pnl_concentration",
    )
    ∷ []

unfoldable pub can_expand : CanaryGateEvaluator → ExpansionEvidence → GateDecision
unfolding expand_checks
can_expand g e = verdict (fired (expand_checks g e))
