-- ===== src/ActionBudget/Recovery.antt =====
-- Recovery of the action budget after a restart, crates/trading/src/risk/action_budget.rs.
use hype_edge.Common.{
  Bool, true, false, not, Option, none, some, List, [], ◌∷◌, ◌==◌, keep, if◌then◌else◌,
}
use hype_edge.Common.Int.{ℤ, pos, ltb_ℤ, leb_ℤ, max_ℤ}
use hype_edge.Common.Result.{ok, err}
use hype_edge.ActionBudget.{
  RemoteActionSnapshot, CancelHeadroomSnapshot, NetworkAttemptDebit, FillCredit, BudgetAllocation,
  ActionBudgetController, debit_network_attempt, set_allocation,
}

pub record ActionBudgetRecoveryState : Type 0 where
  pub remote_snapshot : Option RemoteActionSnapshot
  pub cancel_snapshot : Option CancelHeadroomSnapshot
  pub attempts_after_snapshot : List NetworkAttemptDebit
  pub fills : List FillCredit
  pub allocations : List BudgetAllocation
  pub possible_live_orders : ℤ

-- The attempts of a recovery, debited in turn; one that is older than the snapshot stops it, one
-- whose identity is reused clears them.
unfoldable pub restore_attempts :
    ℤ → List NetworkAttemptDebit → ActionBudgetController → ActionBudgetController × Bool
unfolding debit_network_attempt
restore_attempts observed_at [] c = (c, true)
restore_attempts observed_at (d ∷ ds) c =
    if ltb_ℤ d.occurred_at observed_at then (c, false) else (elim (debit_network_attempt c d) [
      | err e ↦ (record c { attempts = [] }, false)
      | ok r ↦ restore_attempts observed_at ds r.0
    ])

unfoldable pub set_allocations :
    List BudgetAllocation → ActionBudgetController → ActionBudgetController
unfolding set_allocation
set_allocations [] c = c
set_allocations (a ∷ rest) c = set_allocations rest (set_allocation c a)

unfoldable pub cleared : ActionBudgetController → ℤ → ActionBudgetController
cleared c live = record c {
  remote_snapshot = none;
  cancel_snapshot = none;
  attempts = [];
  fills = [];
  allocations = [];
  possible_live_orders = max_ℤ live (pos 0);
  forced_cancel_only = true;
  restored_conservatively = true;
}

unfoldable pub restore_from :
    ActionBudgetController
    → RemoteActionSnapshot
    → CancelHeadroomSnapshot
    → ActionBudgetRecoveryState
    → ActionBudgetController × Bool
unfolding restore_attempts set_allocations
restore_from c remote headroom s =
    if not (remote.quota_owner_address == c.quota_owner_address)
    then (c, false)
    else (let (c', restored) = restore_attempts remote.observed_at s.attempts_after_snapshot c in
        if restored
        then (
          record (set_allocations s.allocations (record c' { fills = s.fills })) {
            remote_snapshot = some remote;
            cancel_snapshot = some headroom;
            forced_cancel_only = false;
          },
          true,
        )
        else (c', false))

unfoldable pub restore :
    ActionBudgetController → ActionBudgetRecoveryState → ActionBudgetController × Bool
unfolding restore_from cleared
restore c s = elim s.remote_snapshot [
  | none ↦ (cleared c s.possible_live_orders, false)
  | some remote ↦ elim s.cancel_snapshot [
    | none ↦ (cleared c s.possible_live_orders, false)
    | some headroom ↦ restore_from (cleared c s.possible_live_orders) remote headroom s
  ]
]

-- The exported attempts are those from the remote snapshot on, all of them without a snapshot.
unfoldable pub since : Option RemoteActionSnapshot → NetworkAttemptDebit → Bool
since none d = true
since (some s) d = leb_ℤ s.observed_at d.occurred_at

unfoldable pub export_recovery_state : ActionBudgetController → ActionBudgetRecoveryState
unfolding since
export_recovery_state c = record {
  remote_snapshot = c.remote_snapshot;
  cancel_snapshot = c.cancel_snapshot;
  attempts_after_snapshot = keep (since c.remote_snapshot) c.attempts;
  fills = c.fills;
  allocations = c.allocations;
  possible_live_orders = c.possible_live_orders;
}
