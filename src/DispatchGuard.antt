-- ===== src/DispatchGuard.antt =====
-- The admission of one child of a durable batch: the dispatch guard of
-- crates/trading/src/execution/batch.rs. A time is a number of nanoseconds.
pub mod Admission
mod Tests
use Prim.Native.String.{String}
use text.Mathlib.Text.{◌==◌ as str_eq}
use hype_edge.Common.{Bool, true, false, not, ◌&&◌, ◌||◌, if◌then◌else◌}
use hype_edge.Common.Int.{ℤ, leb_ℤ, eq_ℤ}

pub data ChildActionType : Type 0 where
  place cancel modify : ChildActionType

abbrev pub is_cancel : ChildActionType → Bool
is_cancel cancel = true
is_cancel _ = false

pub data GuardDecision : Type 0 where
  allow superseded expired blocked : GuardDecision

pub record DispatchGuardContext : Type 0 where
  pub now : ℤ
  pub deadline : ℤ
  pub expected_session_id : String
  pub active_session_id : String
  pub expected_config_version : ℤ
  pub active_config_version : ℤ
  pub expected_plan_revision : ℤ
  pub active_plan_revision : ℤ
  pub expected_connection_generation : ℤ
  pub active_connection_generation : ℤ
  pub market_fresh : Bool
  pub account_fresh : Bool
  pub user_stream_fresh : Bool
  pub postgres_fresh : Bool
  pub safety_allows_place : Bool
  pub lifecycle_allows_place : Bool
  pub budget_allows_place : Bool
  pub reservation_valid : Bool
  pub alo_valid : Bool

unfoldable pub evaluate_dispatch_guard : ChildActionType → DispatchGuardContext → GuardDecision
evaluate_dispatch_guard action c =
    if is_cancel action
    then allow
    else if leb_ℤ c.deadline c.now
    then expired
    else if not (str_eq c.expected_session_id c.active_session_id)
        || (not (eq_ℤ c.expected_config_version c.active_config_version)
            || (not (eq_ℤ c.expected_plan_revision c.active_plan_revision)
                || not (eq_ℤ c.expected_connection_generation c.active_connection_generation)))
    then superseded
    else if not (
        c.market_fresh
        && (c.account_fresh
            && (c.user_stream_fresh
                && (c.postgres_fresh
                    && (c.safety_allows_place
                        && (c.lifecycle_allows_place
                            && (c.budget_allows_place && (c.reservation_valid && c.alo_valid))))))))
    then blocked
    else allow
