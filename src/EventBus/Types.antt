-- ===== src/EventBus/Types.antt =====
-- The event types of crates/domain/src/events.rs, and which of them are lossy.
use hype_edge.Common.{Bool, true, false}

pub data EventType : Type 0 where
  l2_book_update trade_update candle_update funding_update mid_price_update : EventType
  external_reference_update mm_feature_sample mm_quote_decision mm_inventory_sample : EventType
  mm_action_credit_sample mm_fill_markout : EventType
  order_submitted order_acknowledged order_filled order_partial_fill order_cancelled : EventType
  order_rejected order_expired position_changed balance_changed account_state_update : EventType
  signal_generated risk_check_passed risk_check_failed kill_switch_triggered : EventType
  reconciliation_complete action_credits_low ws_connected ws_disconnected : EventType

unfoldable pub EventType-discrete : Discrete EventType
EventType-discrete = hlevel

unfoldable pub is_lossy_type : EventType → Bool
is_lossy_type l2_book_update = true
is_lossy_type trade_update = true
is_lossy_type candle_update = true
is_lossy_type funding_update = true
is_lossy_type mid_price_update = true
is_lossy_type external_reference_update = true
is_lossy_type mm_feature_sample = true
is_lossy_type mm_quote_decision = true
is_lossy_type mm_inventory_sample = true
is_lossy_type mm_action_credit_sample = true
is_lossy_type mm_fill_markout = true
is_lossy_type _ = false
