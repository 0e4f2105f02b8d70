-- ===== src/ActionBudget/RoundTrip.antt =====
-- Export and restore of the action budget, crates/trading/src/risk/action_budget.rs: the ledgers
-- after a restart.
use hype_edge.Common.{
  ◌≡◌, refl, sym, ap, ◌∙◌, Bool, true, false, none, some, List, [], ◌∷◌, arith, ==_iff, keep,
  Option-cases, inl, inr,
}
use hype_edge.Common.Int.{ℤ, pos, ◌+ℤ◌, ◌-ℤ◌, ◌≤ℤ◌, ltb_ℤ, max_ℤ, int_laws}
use hype_edge.ActionBudget.{
  NetworkAttemptDebit, ActionBudgetController, RemoteActionSnapshot, CancelHeadroomSnapshot,
  BudgetAllocation, total, debit_network_attempt, set_allocation, release_allocation, address_left,
  cancel_left, address_remaining, cancel_remaining, shadow_address_debit, shadow_cancels,
  address_cost, cancel_cost, remote_remaining, headroom_remaining,
}
use hype_edge.ActionBudget.Recovery.{
  ActionBudgetRecoveryState, restore_attempts, set_allocations, restore_from, restore, cleared,
  export_recovery_state, since,
}
use hype_edge.ActionBudget.Ledger.{IsLedger}
use hype_edge.ActionBudget.Reentry.{
  enter, IsFresh-none, restore_attempts-enter, total-enter, total-keep, IsLedger-keep, all-keep,
}

set_allocations-attempts :
    (l : List BudgetAllocation) (c : ActionBudgetController)
    → (set_allocations l c).attempts ≡ c.attempts
unfolding set_allocations set_allocation release_allocation
set_allocations-attempts [] c = refl
set_allocations-attempts (a ∷ l) c = set_allocations-attempts l (set_allocation c a) ∙ ground arith

-- The controller that a successful recovery leaves.
recovered :
    ActionBudgetController
    → RemoteActionSnapshot
    → CancelHeadroomSnapshot
    → ActionBudgetRecoveryState
    → ActionBudgetController
recovered c r k s = record (set_allocations s.allocations (record c { fills = s.fills })) {
  remote_snapshot = some r;
  cancel_snapshot = some k;
  forced_cancel_only = false;
}

restore_from-ok :
    (c c' : ActionBudgetController) (r : RemoteActionSnapshot) (k : CancelHeadroomSnapshot)
    (s : ActionBudgetRecoveryState)
    → r.quota_owner_address ≡ c.quota_owner_address
    → restore_attempts r.observed_at s.attempts_after_snapshot c ≡ (c', true)
    → restore_from c r k s ≡ (recovered c' r k s, true)
unfolding restore_from recovered
restore_from-ok c c' r k s h e = ground (arith, ==_iff r.quota_owner_address c.quota_owner_address)

restore-ok :
    (c : ActionBudgetController) (r : RemoteActionSnapshot) (k : CancelHeadroomSnapshot)
    (s : ActionBudgetRecoveryState)
    → s.remote_snapshot ≡ some r
    → s.cancel_snapshot ≡ some k
    → restore c s ≡ restore_from (cleared c s.possible_live_orders) r k s
unfolding restore
restore-ok c r k s h e = ground arith

-- The ledger of a recovery from an export.
abbrev exported : ActionBudgetController → RemoteActionSnapshot → List NetworkAttemptDebit
exported c r = enter (keep (since (some r)) c.attempts) []

restore-export :
    (c c0 : ActionBudgetController) (r : RemoteActionSnapshot) (k : CancelHeadroomSnapshot)
    → IsLedger c.attempts
    → c.remote_snapshot ≡ some r
    → c.cancel_snapshot ≡ some k
    → r.quota_owner_address ≡ c0.quota_owner_address
    → restore c0 (export_recovery_state c) ≡ (
      recovered
          (record (cleared c0 c.possible_live_orders) { attempts = exported c r })
          r
          k
          (export_recovery_state c),
      true,
    )
unfolding export_recovery_state cleared since
restore-export c c0 r k l e1 e2 o =
    restore-ok c0 r k (export_recovery_state c) e1 e2
    ∙ restore_from-ok (cleared c0 c.possible_live_orders)
        (record (cleared c0 c.possible_live_orders) { attempts = exported c r }) r k
        (export_recovery_state c) o
        (rw e1 (
          restore_attempts-enter r.observed_at (keep (since (some r)) c.attempts)
            (cleared c0 c.possible_live_orders) (all-keep (since (some r)) c.attempts)
            (IsLedger-keep (since (some r)) c.attempts l)
            (IsFresh-none (keep (since (some r)) c.attempts))))

total-exported :
    (p : NetworkAttemptDebit → Bool) (cost : NetworkAttemptDebit → ℤ) (c : ActionBudgetController)
    (r : RemoteActionSnapshot)
    → ((d : NetworkAttemptDebit) → p d ≡ true → since (some r) d ≡ true)
    → total p cost (exported c r) ≡ total p cost c.attempts
unfolding total
total-exported p cost c r h =
    total-enter p cost (keep (since (some r)) c.attempts) []
    ∙ plus_nil p cost (keep (since (some r)) c.attempts)
    ∙ total-keep p (since (some r)) cost h c.attempts
  where
    plus_zero : (a : ℤ) → a +ℤ pos 0 ≡ a
    plus_zero a = grind int_laws

    plus_nil :
        (p : NetworkAttemptDebit → Bool) (cost : NetworkAttemptDebit → ℤ)
        (ds : List NetworkAttemptDebit)
        → total p cost ds +ℤ total p cost [] ≡ total p cost ds
    plus_nil p cost ds = plus_zero (total p cost ds)

address_left-exported :
    (c : ActionBudgetController) (r : RemoteActionSnapshot)
    → address_left (exported c r) (some r) ≡ address_left c.attempts (some r)
unfolding address_left shadow_address_debit since
address_left-exported c r =
    ap (λ (t : ℤ). max_ℤ (remote_remaining r -ℤ t) (pos 0))
      (total-exported (λ a. ltb_ℤ r.observed_at a.occurred_at) address_cost c r
        (λ d e. ground arith))

cancel_left-exported :
    (c : ActionBudgetController) (r : RemoteActionSnapshot) (k : CancelHeadroomSnapshot)
    → r.observed_at ≤ℤ k.observed_at
    → cancel_left (exported c r) (some k) ≡ cancel_left c.attempts (some k)
unfolding cancel_left shadow_cancels since
cancel_left-exported c r k h =
    ap (λ (t : ℤ). max_ℤ (headroom_remaining k -ℤ t) (pos 0))
      (total-exported (λ a. ltb_ℤ k.observed_at a.occurred_at) cancel_cost c r
        (λ d e. ground arith))

address_remaining-recovered :
    (c : ActionBudgetController) (r : RemoteActionSnapshot) (k : CancelHeadroomSnapshot)
    (s : ActionBudgetRecoveryState)
    → address_remaining (recovered c r k s) ≡ address_left c.attempts (some r)
unfolding address_remaining recovered
address_remaining-recovered c r k s =
    ap (λ (ds : List NetworkAttemptDebit). address_left ds (some r))
      (set_allocations-attempts s.allocations (record c { fills = s.fills }))

cancel_remaining-recovered :
    (c : ActionBudgetController) (r : RemoteActionSnapshot) (k : CancelHeadroomSnapshot)
    (s : ActionBudgetRecoveryState)
    → cancel_remaining (recovered c r k s) ≡ cancel_left c.attempts (some k)
unfolding cancel_remaining recovered
cancel_remaining-recovered c r k s =
    ap (λ (ds : List NetworkAttemptDebit). cancel_left ds (some k))
      (set_allocations-attempts s.allocations (record c { fills = s.fills }))

-- If the attempts have distinct identities, both snapshots are known, the controllers have the
-- same quota owner and the cancel snapshot is not older than the remote one, then restoring an
-- export succeeds and gives the same remaining address actions and the same remaining cancel
-- headroom.
pub restore-export_recovery_state :
    (c c0 : ActionBudgetController) (r : RemoteActionSnapshot) (k : CancelHeadroomSnapshot)
    → IsLedger c.attempts
    → c.remote_snapshot ≡ some r
    → c.cancel_snapshot ≡ some k
    → r.quota_owner_address ≡ c0.quota_owner_address
    → r.observed_at ≤ℤ k.observed_at
    → ((restore c0 (export_recovery_state c)).1 ≡ true)
      × (address_remaining (restore c0 (export_recovery_state c)).0 ≡ address_remaining c)
      × (cancel_remaining (restore c0 (export_recovery_state c)).0 ≡ cancel_remaining c)
unfolding address_remaining cancel_remaining
restore-export_recovery_state c c0 r k l e1 e2 o h = rw (restore-export c c0 r k l e1 e2 o) (
  refl,
  address_remaining-recovered after r k (export_recovery_state c)
      ∙ address_left-exported c r
      ∙ ap (address_left c.attempts) (sym e1),
  cancel_remaining-recovered after r k (export_recovery_state c)
      ∙ cancel_left-exported c r k h
      ∙ ap (cancel_left c.attempts) (sym e2),
)
  where
    after : ActionBudgetController
    after = record (cleared c0 c.possible_live_orders) { attempts = exported c r }

-- Entering the attempts changes neither the latch nor the remote snapshot.
restore_attempts_frame :
    (at : ℤ) (ds : List NetworkAttemptDebit) (c : ActionBudgetController)
    → ((restore_attempts at ds c).0.forced_cancel_only ≡ c.forced_cancel_only)
      × ((restore_attempts at ds c).0.remote_snapshot ≡ c.remote_snapshot)
unfolding restore_attempts debit_network_attempt
restore_attempts_frame at [] c = (refl, refl)
restore_attempts_frame at (d ∷ ds) c = ground (
  arith,
  restore_attempts_frame at ds c,
  restore_attempts_frame at ds (record c { attempts = d ∷ c.attempts }),
)

restore_from_refused :
    (c : ActionBudgetController) (r : RemoteActionSnapshot) (k : CancelHeadroomSnapshot)
    (s : ActionBudgetRecoveryState)
    → (restore_from c r k s).1 ≡ false
    → ((restore_from c r k s).0.forced_cancel_only ≡ c.forced_cancel_only)
      × ((restore_from c r k s).0.remote_snapshot ≡ c.remote_snapshot)
unfolding restore_from
restore_from_refused c r k s h =
    ground (arith, restore_attempts_frame r.observed_at s.attempts_after_snapshot c)

no_remote : (c : ActionBudgetController) → c.remote_snapshot ≡ none → address_remaining c ≡ pos 0
unfolding address_remaining address_left
no_remote c h = ap (address_left c.attempts) h

refused_frame :
    (c : ActionBudgetController) (s : ActionBudgetRecoveryState)
    → (restore c s).1 ≡ false
    → ((restore c s).0.forced_cancel_only ≡ true) × ((restore c s).0.remote_snapshot ≡ none)
unfolding restore cleared
refused_frame c s h = elim (Option-cases s.remote_snapshot) [
  | inl e ↦ ground arith
  | inr (r, e) ↦ elim (Option-cases s.cancel_snapshot) [
    | inl q ↦ ground arith
    | inr (k, q) ↦ ground (arith, restore_from_refused (cleared c s.possible_live_orders) r k s)
  ]
]

-- A recovery that is refused leaves the controller forced to cancel-only, without a remote
-- snapshot and with no remaining address action.
pub restore_refused :
    (c : ActionBudgetController) (s : ActionBudgetRecoveryState)
    → (restore c s).1 ≡ false
    → ((restore c s).0.forced_cancel_only ≡ true)
      × ((restore c s).0.remote_snapshot ≡ none)
      × (address_remaining (restore c s).0 ≡ pos 0)
restore_refused c s h = (frame.0, frame.1, no_remote (restore c s).0 frame.1)
  where
    frame : ((restore c s).0.forced_cancel_only ≡ true) × ((restore c s).0.remote_snapshot ≡ none)
    frame = refused_frame c s h
