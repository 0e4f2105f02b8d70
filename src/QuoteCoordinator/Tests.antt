-- ===== src/QuoteCoordinator/Tests.antt =====
-- A bid that is withdrawn, and one that is replaced after a partial fill.
use mathlib.Core.List.{Memᴰ}
use hype_edge.Common.{ℕ, ◌≡◌, refl, ◌⊎◌, true, false, none, some, [], ◌∷◌, map, All}
use hype_edge.Common.Int.{pos, ◌*ℤ◌, ◌+ℤ◌, ◌-ℤ◌, ◌/ℤ◌}
use hype_edge.Common.Result.{ok, err}
use hype_edge.Decimal.{Decimal, decimal_zero, mul, div, add, sub, abs, min}
use hype_edge.Decimal.WideInteger.{exact_wide}
use hype_edge.Order.{Side, buy, sell, OrderStatus}
use hype_edge.ActionBudget.Mode.{ActionBudgetMode}
use hype_edge.Quotes.{
  quote, keep_quote, no_quote, DesiredQuote, DesiredQuoteSet, QuoteRiskOwner, QuoteSlotKey,
  QuoteSlotView, QuoteDiff, QuotePlan, has_unknown, has_orphaned_owner, has_inflight, current_owner,
}
use hype_edge.QuoteCoordinator.{QuoteCoordinatorConfig, make_plan, is_crossed}
use hype_edge.QuoteCoordinator.Coordinate.{coordinate}
use hype_edge.QuoteCoordinator.Slots.{is_placing, MayPlace}
use hype_edge.QuoteCoordinator.Plans.{IsCurrent, coordinate_sound}
use hype_edge.QuoteCoordinator.Withdrawal.{IsCancelOf, coordinate_withdraws}

abbrev config : QuoteCoordinatorConfig
config = record {
  min_quote_lifetime = pos 5;
  refresh_cooldown = pos 1;
  max_quote_age = pos 150;
  price_hysteresis_ticks = 1;
  size_hysteresis = decimal_zero;
  replace_hysteresis_usdc = decimal_zero;
  action_shadow_cost_usdc = decimal_zero;
  failure_tail_cost_per_action_usdc = decimal_zero;
  modify_enabled = false;
}

abbrev slot : Side → QuoteSlotKey
slot side = record { strategy_id = 1; symbol = 2; side = side; level = 0 }

abbrev unit : ℕ → Decimal
unit n = record { raw = pos n }

abbrev owner : QuoteRiskOwner
owner = record {
  order_id = some 1;
  cloid = 9;
  price = unit 1_000_000_000_000_000_000;
  remaining_size = unit 1_000_000_000_000_000_000;
  status = OrderStatus.acknowledged;
  plan_revision = pos 1;
  live_since = pos 0;
  exchange_order_id_known = true;
}

abbrev bid_view : QuoteSlotView
bid_view = record {
  key = slot buy;
  revision = pos 3;
  plan_revision = pos 1;
  owners = owner ∷ [];
  last_transition_at = none;
}

abbrev ask_view : QuoteSlotView
ask_view = record {
  key = slot sell;
  revision = pos 3;
  plan_revision = pos 1;
  owners = [];
  last_transition_at = none;
}

-- A bid of three units at two, five times what remains at half the price.
abbrev wanted : DesiredQuote
wanted = record {
  slot = slot buy;
  decision = quote;
  price = some (unit 2_000_000_000_000_000_000);
  size = some (unit 3_000_000_000_000_000_000);
  gross_edge_usdc = unit 7;
  reason = "policy";
}

abbrev kept : DesiredQuote
kept = record {
  slot = slot sell;
  decision = keep_quote;
  price = none;
  size = none;
  gross_edge_usdc = decimal_zero;
  reason = "policy";
}

abbrev withdrawn : DesiredQuote
withdrawn = record wanted { decision = no_quote; price = none; size = none }

abbrev quotes : DesiredQuote → DesiredQuoteSet
quotes bid = record {
  strategy_id = 1;
  symbol = 2;
  session_id = 1;
  config_version = 1;
  model_version = 1;
  market_version = pos 1;
  connection_generation = pos 1;
  current_slot_revision = pos 3;
  revision = pos 2;
  fair_price = unit 1;
  reservation_price = unit 1;
  inventory_notional = decimal_zero;
  expected_utility_usdc = decimal_zero;
  budget_mode = ActionBudgetMode.normal;
  bid = bid;
  ask = kept;
  created_at = pos 0;
  valid_until = pos 500;
  feature_values = [];
}

tick : Decimal
tick = unit 1_000_000_000_000_000

plan : DesiredQuote → QuotePlan
unfolding tick coordinate
plan bid = elim (coordinate exact_wide config (quotes bid) bid_view ask_view tick (pos 100)) [
  | ok p ↦ p
  | err e ↦ make_plan (quotes bid) [] none
]

-- The bid is replaced, at a fifth above what remains.
plan_of_wanted :
    coordinate exact_wide config (quotes wanted) bid_view ask_view tick (pos 100) ≡ ok (plan wanted)
unfolding plan tick coordinate has_unknown has_orphaned_owner has_inflight div
plan_of_wanted = refl

actions_of_wanted :
    map (λ (d : QuoteDiff). d.desired.size) (plan wanted).diffs
    ≡ some (unit 1_200_000_000_000_000_000) ∷ none ∷ []
unfolding plan tick coordinate has_unknown has_orphaned_owner has_inflight div mul abs sub ◌-ℤ◌ ◌/ℤ◌
    ◌+ℤ◌ ◌*ℤ◌ add min
actions_of_wanted = refl

plan_of_withdrawn :
    coordinate exact_wide config (quotes withdrawn) bid_view ask_view tick (pos 100)
    ≡ ok (plan withdrawn)
unfolding plan tick coordinate has_unknown has_orphaned_owner has_inflight
plan_of_withdrawn = refl

coordinate_withdraws_example : (d : QuoteDiff) × Memᴰ d (plan withdrawn).diffs × IsCancelOf owner d
unfolding has_unknown has_orphaned_owner has_inflight current_owner
coordinate_withdraws_example =
    coordinate_withdraws exact_wide config (quotes withdrawn) bid_view ask_view tick (pos 100)
      (plan withdrawn) buy owner plan_of_withdrawn (refl, refl, refl, refl, refl)

coordinate_sound_example :
    (((plan wanted).fenced ≡ true) × All (λ d. is_placing d.action ≡ false) (plan wanted).diffs)
    ⊎ (((plan wanted).fenced ≡ false)
        × IsCurrent (quotes wanted) bid_view ask_view (pos 100)
        × ((b : QuoteDiff) × (a : QuoteDiff) × ((plan wanted).diffs ≡ b ∷ a ∷ [])
            × ((is_placing b.action ≡ false)
                ⊎ ((is_crossed (quotes wanted) ≡ false) × MayPlace exact_wide wanted bid_view b))
            × ((is_placing a.action ≡ false)
                ⊎ ((is_crossed (quotes wanted) ≡ false) × MayPlace exact_wide kept ask_view a))))
coordinate_sound_example =
    coordinate_sound exact_wide config (quotes wanted) bid_view ask_view tick (pos 100)
      (plan wanted) plan_of_wanted
