-- ===== src/ActionBudget/Permission.antt =====
-- The modes and the permissions of the action budget, crates/trading/src/risk/action_budget.rs.
-- Floating-point numbers are an interface. `none` is a panic, and each reading of the clock is an
-- argument.
pub mod Granted
pub mod Reserve
mod Tests
use Prim.Native.String.{String}
use hype_edge.Common.{
  ℕ, zero, suc, Bool, true, false, not, ◌&&◌, ◌||◌, Option, none, some, List, [], ◌∷◌, keep, length,
  if◌then◌else◌,
}
use hype_edge.Common.Int.{ℤ, pos, ◌+ℤ◌, ◌-ℤ◌, ◌*ℤ◌, ◌/ℤ◌, ltb_ℤ, leb_ℤ, eq_ℤ, max_ℤ}
use hype_edge.Common.Result.{Result, ok, err}
use hype_edge.Decimal.{Decimal, decimal_zero, add, sub, div, max, scale_i128, is_positive}
use hype_edge.Decimal.WideInteger.{Wide}
use hype_edge.ActionBudget.{
  BudgetAction, place, cancel, modify, close, RemoteActionSnapshot, CancelHeadroomSnapshot,
  BudgetAllocation, FillCredit, NetworkAttemptDebit, ActionBudgetController, address_cost, total,
  address_remaining, cancel_remaining, ip_remaining, required_cancel_reserve, allocation_consumed,
  allocates,
}
use hype_edge.ActionBudget.Mode.{
  ActionBudgetMode, normal, conserve, critical, cancel_only, exhausted,
}

-- Floating-point numbers. `runway` divides the remaining actions by the burn, read back from its text.
pub record BudgetFloats : Type 1 where
  pub Float : Type 0
  pub zero_float : Float
  pub infinity : Float
  pub is_le : Float → Float → Bool
  pub of_millis : ℤ → Float
  pub runway : ℤ → Decimal → Float
  pub to_decimal : Float → Option Decimal

pub record BudgetPermission : Type 0 where
  pub allowed : Bool
  pub mode : ActionBudgetMode
  pub reason : String

pub record PermissionRequest : Type 0 where
  pub action : BudgetAction
  pub strategy_id : Option ℕ
  pub symbol : Option ℕ
  pub child_actions : ℤ
  pub ip_weight : ℤ
  pub risk_reducing : Bool
  pub emergency : Bool

pub data PermissionError : Type 0 where
  bad_request incomplete_scope panic : PermissionError

abbrev pub granted : ActionBudgetMode → String → Result PermissionError BudgetPermission
granted mode reason = ok (record { allowed = true; mode = mode; reason = reason })

abbrev pub denied : ActionBudgetMode → String → Result PermissionError BudgetPermission
denied mode reason = ok (record { allowed = false; mode = mode; reason = reason })

-- One hour in nanoseconds.
abbrev pub hour : ℤ
hour = pos 3_600_000_000_000

abbrev pub within : ℤ → ℤ → ℤ → Bool
within cutoff now at = ltb_ℤ cutoff at && leb_ℤ at now

-- `Decimal::from_i128` of an i64, whose product with 10^18 fits an i128.
abbrev pub of_count : ℤ → Decimal
of_count n = record { raw = n *ℤ scale_i128 }

unfoldable pub earned_by : (FillCredit → Bool) → List FillCredit → Decimal → Decimal
earned_by p [] sum = sum
earned_by p (f ∷ fs) sum = earned_by p fs (if p f then add sum f.volume_usdc else sum)

abbrev pub is_lenient : ActionBudgetMode → Bool
is_lenient normal = true
is_lenient conserve = true
is_lenient _ = false

module _ (fl : BudgetFloats) where
  pub record BudgetSettings : Type 0 where
    pub remote_snapshot_max_age_seconds : fl.Float
    pub address_conserve_threshold : ℤ
    pub address_critical_threshold : ℤ
    pub address_cancel_only_threshold : ℤ
    pub close_action_reserve : ℤ
    pub ip_emergency_reserve : ℤ
    pub runway_conserve_hours : fl.Float
    pub runway_critical_hours : fl.Float
    pub runway_cancel_only_hours : fl.Float
    pub minimum_marginal_usdc_per_action : fl.Float
    pub minimum_actions_for_economic_gate : ℤ

  -- The statistics of one window that the mode reads.
  pub record WindowStats : Type 0 where
    pub burned_actions : ℤ
    pub marginal_usdc_per_action : Option Decimal
    pub runway_hours : fl.Float

module _ (fl : BudgetFloats) (w : Wide) (s : BudgetSettings fl) where
  unfoldable pub is_fresh : ℤ → ℤ → Bool
  unfolding ◌-ℤ◌ ◌/ℤ◌
  is_fresh observed_at now =
      let age = fl.of_millis ((now -ℤ observed_at) /ℤ pos 1_000_000) in
      fl.is_le fl.zero_float age && fl.is_le age s.remote_snapshot_max_age_seconds

  unfoldable pub placement_remaining_raw : ActionBudgetController → ℤ
  unfolding ◌-ℤ◌
  placement_remaining_raw c =
      max_ℤ (address_remaining c -ℤ required_cancel_reserve c -ℤ s.close_action_reserve) (pos 0)

  abbrev pub runway_of : ActionBudgetController → Decimal → fl.Float
  runway_of c net_burn =
      if is_positive net_burn then fl.runway (placement_remaining_raw c) net_burn else fl.infinity

  abbrev pub marginal_of : ℤ → Decimal → Option (Option Decimal)
  marginal_of burned earned =
      if eq_ℤ burned (pos 0)
      then some none
      else (elim (div w earned (of_count burned)) [ none ↦ none | some m ↦ some (some m) ])

  abbrev pub stats_of :
      ActionBudgetController
      → ℤ
      → Option Decimal
      → Option (Option Decimal)
      → Option (WindowStats fl)
  stats_of c burned (some net_burn) (some marginal) = some (record {
    burned_actions = burned;
    marginal_usdc_per_action = marginal;
    runway_hours = runway_of c net_burn;
  })
  stats_of c burned _ _ = none

  unfoldable pub window_stats : ActionBudgetController → ℤ → ℤ → Option (WindowStats fl)
  unfolding earned_by total placement_remaining_raw
  window_stats c hours now =
      let cutoff = now -ℤ hours *ℤ hour in
      let burned = total (λ a. within cutoff now a.occurred_at) address_cost c.attempts in
      let earned = earned_by (λ f. within cutoff now f.occurred_at) c.fills decimal_zero in
      stats_of c burned (div w (max (sub (of_count burned) earned) decimal_zero) (of_count hours))
        (marginal_of burned earned)

  abbrev pub is_uneconomic : WindowStats fl → Bool
  is_uneconomic stats =
      leb_ℤ s.minimum_actions_for_economic_gate stats.burned_actions
      && (elim stats.marginal_usdc_per_action [
        | none ↦ false
        | some marginal ↦ (elim (fl.to_decimal s.minimum_marginal_usdc_per_action) [
          | none ↦ ltb_ℤ marginal.raw (pos 0)
          | some least ↦ ltb_ℤ marginal.raw least.raw
        ])
      ])

  unfoldable pub paced_mode : ℤ → WindowStats fl → ActionBudgetMode
  paced_mode placement stats =
      if leb_ℤ placement s.address_cancel_only_threshold
        || fl.is_le stats.runway_hours s.runway_cancel_only_hours
      then cancel_only
      else if leb_ℤ placement s.address_critical_threshold
          || fl.is_le stats.runway_hours s.runway_critical_hours
      then critical
      else if leb_ℤ placement s.address_conserve_threshold
          || fl.is_le stats.runway_hours s.runway_conserve_hours
      then conserve
      else if is_uneconomic stats
      then conserve
      else normal

  unfoldable pub funded_mode : ActionBudgetController → ℤ → Option ActionBudgetMode
  unfolding paced_mode window_stats
  funded_mode c now =
      let address = address_remaining c in
      let ip = ip_remaining c now in
      let reserve = required_cancel_reserve c in
      if leb_ℤ address (pos 0) || leb_ℤ (cancel_remaining c) (pos 0) || leb_ℤ ip (pos 0)
      then some exhausted
      else if leb_ℤ address (reserve +ℤ s.close_action_reserve)
          || leb_ℤ (cancel_remaining c) reserve
          || leb_ℤ ip s.ip_emergency_reserve
      then some cancel_only
      else (elim (window_stats c (pos 1) now) [
        | none ↦ none
        | some stats ↦ some (paced_mode (address -ℤ reserve -ℤ s.close_action_reserve) stats)
      ])

  unfoldable pub snapshot_mode :
      ActionBudgetController
      → ℤ
      → Option RemoteActionSnapshot
      → Option CancelHeadroomSnapshot
      → Option ActionBudgetMode
  unfolding funded_mode is_fresh
  snapshot_mode c now none cancels = some cancel_only
  snapshot_mode c now (some remote) none = some cancel_only
  snapshot_mode c now (some remote) (some cancels) =
      if not (is_fresh remote.observed_at now) || not (is_fresh cancels.observed_at now)
      then some cancel_only
      else funded_mode c now

  unfoldable pub calculate_mode : ActionBudgetController → ℤ → Option ActionBudgetMode
  unfolding snapshot_mode
  calculate_mode c now =
      if c.forced_cancel_only
      then some cancel_only
      else snapshot_mode c now c.remote_snapshot c.cancel_snapshot

  unfoldable pub find_allocation : ℕ → ℕ → List BudgetAllocation → Option BudgetAllocation
  find_allocation i y [] = none
  find_allocation i y (a ∷ as') = if allocates i y a then some a else find_allocation i y as'

  unfoldable pub permission_in_scope :
      ActionBudgetController
      → PermissionRequest
      → ActionBudgetMode
      → Option ℕ
      → Option ℕ
      → Result PermissionError BudgetPermission
  unfolding find_allocation
  permission_in_scope c r mode none none = granted mode "budget available"
  permission_in_scope c r mode (some i) none = err incomplete_scope
  permission_in_scope c r mode none (some y) = err incomplete_scope
  permission_in_scope c r mode (some i) (some y) = elim (find_allocation i y c.allocations) [
    | none ↦ denied mode "no active strategy/symbol allocation"
    | some a ↦
        if ltb_ℤ a.hard_limit (allocation_consumed c i y +ℤ r.child_actions)
        then denied mode "strategy/symbol hard allocation exhausted"
        else granted mode "budget available"
  ]

  -- A request that is no cancel and no emergency close, at the time at which the view is taken.
  unfoldable pub placement_permission :
      ActionBudgetController
      → PermissionRequest
      → ActionBudgetMode
      → ℤ
      → Result PermissionError BudgetPermission
  unfolding permission_in_scope placement_remaining_raw
  placement_permission c r mode now =
      if not (is_lenient mode) && not r.risk_reducing
      then denied mode "budget mode permits only risk-reducing placement"
      else if ltb_ℤ (placement_remaining_raw c) r.child_actions
      then denied mode "address action reserve would be consumed"
      else if ltb_ℤ (ip_remaining c now -ℤ r.ip_weight) s.ip_emergency_reserve
      then denied mode "IP emergency reserve would be consumed"
      else permission_in_scope c r mode r.strategy_id r.symbol

  unfoldable pub emergency_permission :
      ActionBudgetController
      → PermissionRequest
      → ActionBudgetMode
      → ℤ
      → Result PermissionError BudgetPermission
  emergency_permission c r mode now =
      if leb_ℤ r.child_actions (address_remaining c) && leb_ℤ r.ip_weight (ip_remaining c now)
      then granted mode "emergency close reserve"
      else denied mode "quota exhausted"

  unfoldable pub permission_in_mode :
      ActionBudgetController
      → PermissionRequest
      → ActionBudgetMode
      → ℤ
      → BudgetAction
      → Result PermissionError BudgetPermission
  unfolding placement_permission emergency_permission
  permission_in_mode c r mode now cancel = granted mode "cancel bypasses placement budget gates"
  permission_in_mode c r mode now close =
      if r.emergency then emergency_permission c r mode now else placement_permission c r mode now
  permission_in_mode c r mode now place = placement_permission c r mode now
  permission_in_mode c r mode now modify = placement_permission c r mode now

  -- The mode is computed at one reading of the clock, the view at a later one.
  unfoldable pub permission :
      ActionBudgetController → PermissionRequest → ℤ → ℤ → Result PermissionError BudgetPermission
  unfolding calculate_mode permission_in_mode
  permission c r now later =
      if leb_ℤ r.child_actions (pos 0) || ltb_ℤ r.ip_weight (pos 0)
      then err bad_request
      else (elim (calculate_mode c now) [
        | none ↦ err panic
        | some mode ↦ permission_in_mode c r mode later r.action
      ])

  unfoldable pub ip_request_permission :
      ActionBudgetController → ℤ → Bool → ℤ → ℤ → Result PermissionError BudgetPermission
  unfolding calculate_mode
  ip_request_permission c weight emergency now later =
      let remaining = ip_remaining c later in
      if leb_ℤ weight (pos 0) then err bad_request else (elim (calculate_mode c now) [
        | none ↦ err panic
        | some mode ↦
            if leb_ℤ weight remaining
              && leb_ℤ (if emergency then pos 0 else s.ip_emergency_reserve) (remaining -ℤ weight)
            then granted mode "IP weight available"
            else denied mode "IP emergency reserve would be consumed"
      ])
