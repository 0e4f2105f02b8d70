-- ===== src/Canary/Gates.antt =====
-- When the release gates open, crates/trading/src/risk/canary.rs.
use hype_edge.Common.{◌≡◌, ◌↔◌, true, arith}
use hype_edge.Common.Int.{pos, ◌≤ℤ◌}
use hype_edge.Canary.{CanaryGateEvaluator, ReleaseEvidence, can_start_canary}

-- What a canary may start with.
abbrev pub IsReleasable : CanaryGateEvaluator → ReleaseEvidence → Type 0
IsReleasable g e =
    (g.shadow_min_days ≤ℤ e.shadow_complete_utc_days)
    × (g.testnet_min_days ≤ℤ e.testnet_clean_utc_days)
    × (e.reconciliation_diff_count ≡ 0)
    × (e.duplicate_order_count ≡ 0)
    × (e.risk_bypass_count ≡ 0)
    × (e.hard_inventory_breach_count ≡ 0)
    × (e.unresolved_unknown_count ≡ 0)
    × (pos 0 ≤ℤ e.pessimistic_net_edge_usdc.raw)
    × (e.required_runway_hours.raw ≤ℤ e.projected_runway_hours.raw)

-- The canary may start exactly when the shadow and testnet days reach the limits of the
-- evaluator, no reconciliation difference, duplicate order, risk bypass, inventory breach or
-- unresolved unknown is present, the pessimistic edge is not negative and the projected runway
-- reaches the required one.
pub can_start_canary_iff :
    (g : CanaryGateEvaluator) (e : ReleaseEvidence)
    → ((can_start_canary g e).allowed ≡ true) ↔ IsReleasable g e
unfolding can_start_canary
can_start_canary_iff g e = (λ h. ground arith, λ h. ground arith)
