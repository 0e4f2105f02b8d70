-- ===== src/ActionBudget/Permission/Tests.antt =====
-- A controller with room for a placement, with integers of milliseconds as floating-point numbers.
use hype_edge.Common.{◌≡◌, ◌↔◌, refl, true, false, none, some, [], ◌∷◌}
use hype_edge.Common.Int.{ℤ, pos, ◌≤ℤ◌, ◌<ℤ◌, ◌+ℤ◌, ◌*ℤ◌, leb_ℤ}
use hype_edge.Decimal.{sub, div, max, is_positive}
use hype_edge.Decimal.WideInteger.{exact_wide}
use hype_edge.ActionBudget.{
  place, cancel, NetworkAttemptDebit, ActionBudgetController, new, address_remaining,
  required_cancel_reserve, debit_network_attempt, address_cost, find, cancel_remaining,
  ip_remaining,
}
use hype_edge.ActionBudget.Mode.{ActionBudgetMode, normal}
use hype_edge.ActionBudget.Permission.{
  BudgetFloats, BudgetSettings, PermissionRequest, permission, calculate_mode,
}
use hype_edge.ActionBudget.Permission.Granted.{IsGranted, MayDispatch, permission_iff}
use hype_edge.ActionBudget.Permission.Reserve.{debit_keeps_reserve}

abbrev millis : BudgetFloats
millis = record {
  Float = ℤ;
  zero_float = pos 0;
  infinity = pos 1_000_000_000_000;
  is_le = leb_ℤ;
  of_millis = λ ms. ms;
  runway = λ n burn. n;
  to_decimal = λ x. some (record { raw = x });
}

abbrev settings : BudgetSettings millis
settings = record {
  remote_snapshot_max_age_seconds = pos 60_000;
  address_conserve_threshold = pos 3000;
  address_critical_threshold = pos 1500;
  address_cancel_only_threshold = pos 500;
  close_action_reserve = pos 5;
  ip_emergency_reserve = pos 100;
  runway_conserve_hours = pos 24;
  runway_critical_hours = pos 6;
  runway_cancel_only_hours = pos 1;
  minimum_marginal_usdc_per_action = pos 1;
  minimum_actions_for_economic_gate = pos 20;
}

abbrev funded : ActionBudgetController
unfolding new
funded = record (new 3 (pos 10) (pos 1200)) {
  remote_snapshot =
      some
        (record { quota_owner_address = 3; cap = pos 10_000; used = pos 10; observed_at = pos 1 });
  cancel_snapshot = some (record { cap = pos 10_000; used = pos 0; observed_at = pos 1 });
  forced_cancel_only = false;
}

abbrev request : PermissionRequest
request = record {
  action = place;
  strategy_id = none;
  symbol = none;
  child_actions = pos 2;
  ip_weight = pos 1;
  risk_reducing = false;
  emergency = false;
}

mode_of_funded : calculate_mode millis exact_wide settings funded (pos 5) ≡ some normal
unfolding calculate_mode funded address_remaining cancel_remaining ip_remaining ◌+ℤ◌
    required_cancel_reserve div ◌*ℤ◌ is_positive max sub
mode_of_funded = refl

funded_grant : IsGranted (permission millis exact_wide settings funded request (pos 5) (pos 6))
unfolding permission funded address_remaining cancel_remaining ip_remaining ◌+ℤ◌
    required_cancel_reserve div ◌*ℤ◌ is_positive max sub
funded_grant = (record { allowed = true; mode = normal; reason = "budget available" }, refl, refl)

permission_iff_example :
    IsGranted (permission millis exact_wide settings funded request (pos 5) (pos 6)) ↔ (
      (pos 0 <ℤ request.child_actions)
      × (pos 0 ≤ℤ request.ip_weight)
      × ((mode : ActionBudgetMode) × (calculate_mode millis exact_wide settings funded (pos 5)
            ≡ some mode)
          × MayDispatch millis exact_wide settings funded request mode (pos 6) place))
permission_iff_example = permission_iff millis exact_wide settings funded request (pos 5) (pos 6)

abbrev entry : NetworkAttemptDebit
entry = record {
  attempt_id = 1;
  child_actions = cancel ∷ place ∷ [];
  ip_weight = pos 1;
  occurred_at = pos 7;
  strategy_id = none;
  symbol = none;
}

debit_keeps_reserve_example :
    required_cancel_reserve (record funded { attempts = entry ∷ [] }) +ℤ pos 5
    ≤ℤ address_remaining (record funded { attempts = entry ∷ [] })
unfolding debit_network_attempt find address_cost funded
debit_keeps_reserve_example =
    debit_keeps_reserve millis exact_wide settings funded (record funded { attempts = entry ∷ [] })
      request (pos 5) (pos 6) entry true funded_grant (λ e. cc) refl refl refl
