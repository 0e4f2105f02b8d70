-- ===== src/QuoteCoordinator.antt =====
-- The reconciliation of desired and authoritative quotes,
-- crates/trading/src/trading/quote_coordinator.rs. Warnings of the log are left out.
pub mod Diffs
pub mod Coordinate
pub mod Slots
pub mod Fences
pub mod Plans
pub mod Withdrawal
mod Tests
use Prim.Native.String.{String}
use hype_edge.Common.{
  ℕ, suc, Bool, true, false, not, ◌&&◌, ◌||◌, Option, none, some, List, [], ◌∷◌, ◌++◌, ◌*◌, ◌==◌,
  length, if◌then◌else◌,
}
use hype_edge.Common.Int.{ℤ, pos, ltb_ℤ, leb_ℤ, eq_ℤ, max_ℤ, ◌-ℤ◌}
use hype_edge.Common.Result.{Result, ok, err, ◌>>=◌, ◌>>◌, guard}
use hype_edge.Decimal.{Decimal, add, sub, abs, mul, div, min, scale_unit}
use hype_edge.Decimal.WideInteger.{Wide}
use hype_edge.Order.{Side, buy, sell}
use hype_edge.Quotes.{
  QuoteDecision, quote, keep_quote, no_quote, QuoteAction, keep_live, place, cancel,
  cancel_then_place, no_action, blocked_unknown, DesiredQuote, DesiredQuoteSet, QuoteRiskOwner,
  QuoteSlotView, QuoteDiff, QuotePlan, QuoteError, negative_revision, foreign_view,
  tick_not_positive, price_missing, size_missing, panic, is_quote, is_no_quote, is_some, same_side,
  has_unknown, has_inflight, has_orphaned_owner, current_owner,
}

pub record QuoteCoordinatorConfig : Type 0 where
  pub min_quote_lifetime : ℤ
  pub refresh_cooldown : ℤ
  pub max_quote_age : ℤ
  pub price_hysteresis_ticks : ℕ
  pub size_hysteresis : Decimal
  pub replace_hysteresis_usdc : Decimal
  pub action_shadow_cost_usdc : Decimal
  pub failure_tail_cost_per_action_usdc : Decimal
  pub modify_enabled : Bool

pub data ConfigError : Type 0 where
  negative_timing negative_hysteresis negative_cost modify_disabled : ConfigError

unfoldable pub validate_config : QuoteCoordinatorConfig → Result ConfigError (Unit {0})
validate_config c =
    if ltb_ℤ c.min_quote_lifetime (pos 0)
      || ltb_ℤ c.refresh_cooldown (pos 0)
      || ltb_ℤ c.max_quote_age (pos 0)
    then err negative_timing
    else if ltb_ℤ c.replace_hysteresis_usdc.raw (pos 0)
    then err negative_hysteresis
    else if ltb_ℤ c.action_shadow_cost_usdc.raw (pos 0)
        || ltb_ℤ c.failure_tail_cost_per_action_usdc.raw (pos 0)
    then err negative_cost
    else if c.modify_enabled
    then err modify_disabled
    else ok tt

-- `Decimal::from_i128` of a u64, whose product with 10^18 fits an i128.
abbrev pub whole : ℕ → Decimal
whole n = record { raw = pos (n * scale_unit) }

-- A side that crosses is withdrawn, with its price and its size.
unfoldable pub no_quote_desired : DesiredQuote → String → DesiredQuote
no_quote_desired q reason = record q {
  decision = no_quote;
  price = none;
  size = none;
  reason = reason;
}

unfoldable pub prices_cross : Option Decimal → Option Decimal → Bool
prices_cross (some bid) (some ask) = leb_ℤ ask.raw bid.raw
prices_cross _ _ = false

unfoldable pub is_crossed : DesiredQuoteSet → Bool
unfolding prices_cross
is_crossed s =
    is_quote s.bid.decision && is_quote s.ask.decision && prices_cross s.bid.price s.ask.price

unfoldable pub reject_crossed : DesiredQuoteSet → DesiredQuoteSet
unfolding is_crossed no_quote_desired
reject_crossed s =
    if is_crossed s
    then record s {
      bid = no_quote_desired s.bid "crossed_quote_rejected";
      ask = no_quote_desired s.ask "crossed_quote_rejected";
    }
    else s

unfoldable pub belongs : DesiredQuoteSet → Side → QuoteSlotView → Bool
belongs s side v =
    (v.key.strategy_id == s.strategy_id) && (v.key.symbol == s.symbol) && same_side v.key.side side

unfoldable pub validate_owned :
    DesiredQuoteSet → Side → QuoteSlotView → Result QuoteError (Option QuoteRiskOwner)
unfolding belongs current_owner
validate_owned s side v = if belongs s side v then current_owner v else err foreign_view

unfoldable pub validate_views :
    DesiredQuoteSet → QuoteSlotView → QuoteSlotView → Result QuoteError (Unit {0})
unfolding validate_owned
validate_views s bid ask = do _ ← validate_owned s buy bid; _ ← validate_owned s sell ask; ok tt

unfoldable pub fence_reason : DesiredQuoteSet → QuoteSlotView → QuoteSlotView → ℤ → Option String
fence_reason s bid ask now =
    if leb_ℤ s.valid_until now
    then some "candidate_expired"
    else if leb_ℤ s.revision (max_ℤ bid.plan_revision ask.plan_revision)
    then some "stale_plan_revision"
    else if not (eq_ℤ s.current_slot_revision (max_ℤ bid.revision ask.revision))
    then some "slot_revision_mismatch"
    else none

unfoldable pub blocked_reason : QuoteSlotView → String
blocked_reason v =
    if has_unknown v
    then "unknown_risk_owner_requires_reconciliation"
    else "orphaned_live_owner_requires_recovery"

unfoldable pub is_blocked : QuoteSlotView → Bool
is_blocked v = has_unknown v || has_orphaned_owner v

unfoldable pub make_plan : DesiredQuoteSet → List QuoteDiff → Option String → QuotePlan
make_plan s diffs reason = record {
  strategy_id = s.strategy_id;
  symbol = s.symbol;
  session_id = s.session_id;
  config_version = s.config_version;
  revision = s.revision;
  market_version = s.market_version;
  connection_generation = s.connection_generation;
  valid_until = s.valid_until;
  diffs = diffs;
  fair_price = some s.fair_price;
  reservation_price = some s.reservation_price;
  inventory_notional = s.inventory_notional;
  budget_mode = s.budget_mode;
  fenced = is_some reason;
  fence_reason = reason;
}
