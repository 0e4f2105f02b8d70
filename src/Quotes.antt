-- ===== src/Quotes.antt =====
-- The quotes that policy and coordinator share, crates/trading/src/trading/quotes.rs. Identities are
-- numbers, of which only equality counts, and times are integers. The wrappers `Price`, `Size` and
-- `Usd` of a decimal are decimals.
use Prim.Native.String.{String}
use hype_edge.Common.{
  ℕ, Bool, true, false, not, ◌&&◌, ◌||◌, Option, none, some, List, [], ◌∷◌, ◌==◌, any, keep, length,
  ◌+◌, if◌then◌else◌,
}
use hype_edge.Common.Int.{ℤ, pos, ltb_ℤ, leb_ℤ, eq_ℤ}
use hype_edge.Common.Result.{Result, ok, err, ◌>>◌}
use hype_edge.Decimal.{Decimal}
use hype_edge.Order.{
  Side, buy, sell, OrderStatus, pending, submitted, submit_unknown, cancel_unknown,
}
use hype_edge.ActionBudget.Mode.{ActionBudgetMode}

pub data QuoteDecision : Type 0 where
  quote keep_quote no_quote : QuoteDecision

pub data QuoteAction : Type 0 where
  keep_live place cancel modify cancel_then_place no_action blocked_unknown : QuoteAction

pub record QuoteSlotKey : Type 0 where
  pub strategy_id : ℕ
  pub symbol : ℕ
  pub side : Side
  pub level : ℕ

pub record DesiredQuote : Type 0 where
  pub slot : QuoteSlotKey
  pub decision : QuoteDecision
  pub price : Option Decimal
  pub size : Option Decimal
  pub gross_edge_usdc : Decimal
  pub reason : String

pub record DesiredQuoteSet : Type 0 where
  pub strategy_id : ℕ
  pub symbol : ℕ
  pub session_id : ℕ
  pub config_version : ℕ
  pub model_version : ℕ
  pub market_version : ℤ
  pub connection_generation : ℤ
  pub current_slot_revision : ℤ
  pub revision : ℤ
  pub fair_price : Decimal
  pub reservation_price : Decimal
  pub inventory_notional : Decimal
  pub expected_utility_usdc : Decimal
  pub budget_mode : ActionBudgetMode
  pub bid : DesiredQuote
  pub ask : DesiredQuote
  pub created_at : ℤ
  pub valid_until : ℤ
  pub feature_values : List (String × Decimal)

-- An order which can still fill.
pub record QuoteRiskOwner : Type 0 where
  pub order_id : Option ℕ
  pub cloid : ℕ
  pub price : Decimal
  pub remaining_size : Decimal
  pub status : OrderStatus
  pub plan_revision : ℤ
  pub live_since : ℤ
  pub exchange_order_id_known : Bool

pub record QuoteSlotView : Type 0 where
  pub key : QuoteSlotKey
  pub revision : ℤ
  pub plan_revision : ℤ
  pub owners : List QuoteRiskOwner
  pub last_transition_at : Option ℤ

pub record QuoteDiff : Type 0 where
  pub slot : QuoteSlotKey
  pub action : QuoteAction
  pub source : Option QuoteRiskOwner
  pub desired : DesiredQuote
  pub child_actions : List String
  pub reason : String
  pub gross_edge_usdc : Decimal
  pub transition_cost_usdc : Decimal
  pub net_incremental_utility_usdc : Decimal

pub record QuotePlan : Type 0 where
  pub strategy_id : ℕ
  pub symbol : ℕ
  pub session_id : ℕ
  pub config_version : ℕ
  pub revision : ℤ
  pub market_version : ℤ
  pub connection_generation : ℤ
  pub valid_until : ℤ
  pub diffs : List QuoteDiff
  pub fair_price : Option Decimal
  pub reservation_price : Option Decimal
  pub inventory_notional : Decimal
  pub budget_mode : ActionBudgetMode
  pub fenced : Bool
  pub fence_reason : Option String

pub data QuoteError : Type 0 where
  quote_fields size_not_positive price_not_positive negative_revision : QuoteError
  zero_config_version deadline_before_creation foreign_slot wrong_side : QuoteError
  owner_not_positive repeated_owner two_current_owners foreign_view : QuoteError
  tick_not_positive price_missing size_missing panic : QuoteError

abbrev pub is_quote : QuoteDecision → Bool
is_quote quote = true
is_quote _ = false

abbrev pub is_no_quote : QuoteDecision → Bool
is_no_quote no_quote = true
is_no_quote _ = false

abbrev pub is_some {ℓ} : {A : Type ℓ} → Option A → Bool
is_some (some a) = true
is_some none = false

abbrev pub same_side : Side → Side → Bool
same_side buy buy = true
same_side sell sell = true
same_side _ _ = false

abbrev pub same_bool : Bool → Bool → Bool
same_bool true b = b
same_bool false b = not b

abbrev pub not_positive : Option Decimal → Bool
not_positive none = false
not_positive (some d) = leb_ℤ d.raw (pos 0)

unfoldable pub validate_quote : DesiredQuote → Result QuoteError (Unit {0})
validate_quote q =
    if not (same_bool (is_quote q.decision) (is_some q.price && is_some q.size))
    then err quote_fields
    else if not_positive q.size
    then err size_not_positive
    else if not_positive q.price
    then err price_not_positive
    else ok tt

-- One side of the loop over the quotes of a set.
unfoldable pub validate_side : DesiredQuoteSet → DesiredQuote → Side → Result QuoteError (Unit {0})
validate_side s q side =
    if not (q.slot.strategy_id == s.strategy_id) || not (q.slot.symbol == s.symbol)
    then err foreign_slot
    else if same_side q.slot.side side
    then ok tt
    else err wrong_side

unfoldable pub validate_set : DesiredQuoteSet → Result QuoteError (Unit {0})
unfolding validate_side
validate_set s =
    if ltb_ℤ s.revision (pos 0)
      || ltb_ℤ s.current_slot_revision (pos 0)
      || ltb_ℤ s.market_version (pos 0)
    then err negative_revision
    else if s.config_version == 0
    then err zero_config_version
    else if leb_ℤ s.valid_until s.created_at
    then err deadline_before_creation
    else (validate_side s s.bid buy >> validate_side s s.ask sell)

unfoldable pub validate_owner : QuoteRiskOwner → Result QuoteError (Unit {0})
validate_owner o =
    if leb_ℤ o.price.raw (pos 0) || leb_ℤ o.remaining_size.raw (pos 0)
    then err owner_not_positive
    else if ltb_ℤ o.plan_revision (pos 0)
    then err negative_revision
    else ok tt

unfoldable pub is_unknown : OrderStatus → Bool
is_unknown submit_unknown = true
is_unknown cancel_unknown = true
is_unknown _ = false

unfoldable pub is_inflight : OrderStatus → Bool
is_inflight pending = true
is_inflight submitted = true
is_inflight _ = false

-- The loop that enters the cloids of the owners in a set.
unfoldable pub distinct_owners : List QuoteRiskOwner → List ℕ → Bool
distinct_owners [] seen = true
distinct_owners (o ∷ os) seen =
    if any (λ i. i == o.cloid) seen then false else distinct_owners os (o.cloid ∷ seen)

unfoldable pub validate_view : QuoteSlotView → Result QuoteError (Unit {0})
unfolding distinct_owners
validate_view v =
    if ltb_ℤ v.revision (pos 0) || ltb_ℤ v.plan_revision (pos 0)
    then err negative_revision
    else if distinct_owners v.owners []
    then ok tt
    else err repeated_owner

unfoldable pub has_unknown : QuoteSlotView → Bool
unfolding is_unknown
has_unknown v = any (λ o. is_unknown o.status) v.owners

unfoldable pub has_inflight : QuoteSlotView → Bool
unfolding is_inflight
has_inflight v = any (λ o. is_inflight o.status) v.owners

unfoldable pub has_orphaned_owner : QuoteSlotView → Bool
has_orphaned_owner v = any (λ o. not (eq_ℤ o.plan_revision v.plan_revision)) v.owners

unfoldable pub only_one : List QuoteRiskOwner → Result QuoteError (Option QuoteRiskOwner)
only_one [] = ok none
only_one (o ∷ []) = ok (some o)
only_one (o ∷ p ∷ os) = err two_current_owners

unfoldable pub current_owner : QuoteSlotView → Result QuoteError (Option QuoteRiskOwner)
unfolding only_one
current_owner v = only_one (keep (λ o. eq_ℤ o.plan_revision v.plan_revision) v.owners)

unfoldable pub diff_actions : QuoteDiff → ℕ
diff_actions d = length d.child_actions

unfoldable pub total_actions : List QuoteDiff → ℕ
unfolding diff_actions
total_actions [] = 0
total_actions (d ∷ ds) = diff_actions d + total_actions ds

unfoldable pub plan_actions : QuotePlan → ℕ
unfolding total_actions
plan_actions p = total_actions p.diffs
