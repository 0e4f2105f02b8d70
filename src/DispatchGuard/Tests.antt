-- ===== src/DispatchGuard/Tests.antt =====
-- A context that admits everything, and the guard's theorem at it.
use hype_edge.Common.{◌≡◌, refl, ◌⊎◌, true}
use hype_edge.Common.Int.{pos, ◌<ℤ◌}
use hype_edge.DispatchGuard.{place, cancel, expired, DispatchGuardContext, evaluate_dispatch_guard}
use hype_edge.DispatchGuard.Admission.{IsCurrent, IsAdmitted, guard_allows_iff}

abbrev clear : DispatchGuardContext
clear = record {
  now = pos 10;
  deadline = pos 20;
  expected_session_id = "s";
  active_session_id = "s";
  expected_config_version = pos 1;
  active_config_version = pos 1;
  expected_plan_revision = pos 4;
  active_plan_revision = pos 4;
  expected_connection_generation = pos 2;
  active_connection_generation = pos 2;
  market_fresh = true;
  account_fresh = true;
  user_stream_fresh = true;
  postgres_fresh = true;
  safety_allows_place = true;
  lifecycle_allows_place = true;
  budget_allows_place = true;
  reservation_valid = true;
  alo_valid = true;
}

late_expires : evaluate_dispatch_guard place (record clear { now = pos 20 }) ≡ expired
unfolding evaluate_dispatch_guard
late_expires = refl

guard_allows_iff_example :
    (place ≡ cancel) ⊎ ((clear.now <ℤ clear.deadline) × IsCurrent clear × IsAdmitted clear)
unfolding evaluate_dispatch_guard
guard_allows_iff_example = (guard_allows_iff place clear).0 refl
