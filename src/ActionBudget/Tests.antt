-- ===== src/ActionBudget/Tests.antt =====
-- A budget with one debit, and its theorems at concrete states.
use hype_edge.Common.{◌≡◌, refl, true, false, none, some, [], ◌∷◌, arith}
use hype_edge.Common.Int.{pos, ◌-ℤ◌, ◌+ℤ◌}
use hype_edge.Common.Result.{ok}
use hype_edge.ActionBudget.{
  place, cancel, NetworkAttemptDebit, RemoteActionSnapshot, CancelHeadroomSnapshot,
  ActionBudgetController, new, debit_network_attempt, reconcile_remote, advance_cancel_headroom,
  project, remote_used, observed_before, find, address_remaining, address_left,
  shadow_address_debit, remote_remaining, total, address_cost, cancel_remaining, ip_remaining,
}
use hype_edge.ActionBudget.Recovery.{
  ActionBudgetRecoveryState, restore, restore_from, restore_attempts, set_allocations, cleared,
  export_recovery_state, since,
}
use hype_edge.ActionBudget.Ledger.{debit_twice}
use hype_edge.ActionBudget.RoundTrip.{restore-export_recovery_state}

abbrev debit : NetworkAttemptDebit
debit = record {
  attempt_id = 1;
  child_actions = place ∷ cancel ∷ [];
  ip_weight = pos 1;
  occurred_at = pos 20;
  strategy_id = none;
  symbol = none;
}

abbrev remote : RemoteActionSnapshot
remote = record { quota_owner_address = 7; cap = pos 100; used = pos 40; observed_at = pos 10 }

abbrev headroom : CancelHeadroomSnapshot
headroom = record { cap = pos 50; used = pos 0; observed_at = pos 10 }

abbrev before : ActionBudgetController
before = record {
  quota_owner_address = 7;
  cancel_retry_buffer = pos 10;
  ip_weight_limit_per_minute = pos 1200;
  remote_snapshot = some remote;
  cancel_snapshot = some headroom;
  attempts = [];
  fills = [];
  allocations = [];
  possible_live_orders = pos 0;
  forced_cancel_only = false;
  restored_conservatively = false;
}

abbrev after : ActionBudgetController
after = record before { attempts = debit ∷ [] }

debit_of_before : debit_network_attempt before debit ≡ ok (after, true)
unfolding debit_network_attempt find
debit_of_before = refl

address_remaining-after : address_remaining after ≡ pos 58
unfolding address_remaining address_left shadow_address_debit remote_remaining total address_cost
    ◌-ℤ◌ ◌+ℤ◌
address_remaining-after = refl

debit_twice_example : debit_network_attempt after debit ≡ ok (after, false)
debit_twice_example = debit_twice before after debit true debit_of_before

-- A later snapshot on which filled volume gave quota back.
abbrev later : RemoteActionSnapshot
later = record { quota_owner_address = 7; cap = pos 100; used = pos 30; observed_at = pos 40 }

abbrev reconciled : ActionBudgetController
reconciled = record before {
  remote_snapshot = some later;
  cancel_snapshot = some (record { cap = pos 50; used = pos 0; observed_at = pos 40 });
}

reconcile_later : reconcile_remote before later ≡ ok reconciled
unfolding reconcile_remote observed_before advance_cancel_headroom project remote_used ◌-ℤ◌
reconcile_later = refl

restore-export_recovery_state_example :
    ((restore (new 7 (pos 10) (pos 1200)) (export_recovery_state after)).1 ≡ true)
    × (address_remaining (restore (new 7 (pos 10) (pos 1200)) (export_recovery_state after)).0
        ≡ address_remaining after)
    × (cancel_remaining (restore (new 7 (pos 10) (pos 1200)) (export_recovery_state after)).0
        ≡ cancel_remaining after)
unfolding new
restore-export_recovery_state_example =
    restore-export_recovery_state after (new 7 (pos 10) (pos 1200)) remote headroom (refl, tt) refl
      refl refl (omega arith)

abbrev stale : ActionBudgetRecoveryState
stale = record {
  remote_snapshot = some remote;
  cancel_snapshot = none;
  attempts_after_snapshot = debit ∷ [];
  fills = [];
  allocations = [];
  possible_live_orders = pos 3;
}

stale_refused : (restore before stale).1 ≡ false
unfolding restore cleared
stale_refused = refl

-- A debit within the last minute but before the remote snapshot counts against the request weight, and
-- does not after a restart.
abbrev early : NetworkAttemptDebit
early = record debit { occurred_at = pos 5 }

weight_before_restart : ip_remaining (record before { attempts = early ∷ [] }) (pos 30) ≡ pos 1199
unfolding ip_remaining total ◌-ℤ◌ ◌+ℤ◌
weight_before_restart = refl

weight_after_restart :
    ip_remaining
      (restore
        (new 7 (pos 10) (pos 1200))
        (export_recovery_state (record before { attempts = early ∷ [] }))).0
      (pos 30)
    ≡ pos 1200
unfolding ip_remaining total ◌-ℤ◌ ◌+ℤ◌ restore restore_from restore_attempts set_allocations cleared
    new export_recovery_state since
weight_after_restart = refl
