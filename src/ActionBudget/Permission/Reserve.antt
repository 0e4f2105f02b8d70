-- ===== src/ActionBudget/Permission/Reserve.antt =====
-- The reserves of the action budget outlast the placements that it permits,
-- crates/trading/src/risk/action_budget.rs.
use hype_edge.Common.{
  ◌≡◌, ◌≢◌, refl, Bool, false, Option, none, some, List, ◌∷◌, arith, Bool-cases, Option-cases, inl,
  inr,
}
use hype_edge.Common.Int.{ℤ, pos, ◌+ℤ◌, ◌-ℤ◌, ◌≤ℤ◌, ◌<ℤ◌, ltb_ℤ, max_ℤ, +ℤ_parts, -ℤ_parts}
use hype_edge.Common.Result.{ok}
use hype_edge.Decimal.WideInteger.{Wide}
use hype_edge.ActionBudget.{
  BudgetAction, place, cancel, modify, close, NetworkAttemptDebit, RemoteActionSnapshot,
  ActionBudgetController, debit_network_attempt, find, address_remaining, address_left,
  shadow_address_debit, total, address_cost, remote_remaining, required_cancel_reserve,
}
use hype_edge.ActionBudget.Mode.{ActionBudgetMode}
use hype_edge.ActionBudget.Permission.{
  BudgetFloats, BudgetSettings, PermissionRequest, permission, placement_remaining_raw,
}
use hype_edge.ActionBudget.Permission.Granted.{
  IsGranted, IsWithinReserves, MayDispatch, permission_iff,
}

slack :
    (a x y k : ℤ) → y ≤ℤ x +ℤ k → pos 0 ≤ℤ k → max_ℤ (a -ℤ x) (pos 0) ≤ℤ max_ℤ (a -ℤ y) (pos 0) +ℤ k
slack a x y k h n =
    ground (arith, -ℤ_parts a x, -ℤ_parts a y, +ℤ_parts x k, +ℤ_parts (max_ℤ (a -ℤ y) (pos 0)) k)

cost_positive : (d : NetworkAttemptDebit) → pos 0 ≤ℤ address_cost d
unfolding address_cost
cost_positive d = omega arith

grows : (a k : ℤ) → pos 0 ≤ℤ k → a ≤ℤ a +ℤ k
grows a k h = ground (arith, +ℤ_parts a k)

swaps : (a k : ℤ) → k +ℤ a ≤ℤ a +ℤ k
swaps a k = ground (arith, +ℤ_parts a k, +ℤ_parts k a)

covers : (r a b k : ℤ) → r +ℤ k ≤ℤ a → a ≤ℤ b +ℤ k → r ≤ℤ b
covers r a b k h l = ground (arith, +ℤ_parts r k, +ℤ_parts b k)

-- An entry costs at most its actions.
shadow_after :
    (d : NetworkAttemptDebit) (ds : List NetworkAttemptDebit) (at : ℤ)
    → shadow_address_debit (d ∷ ds) at ≤ℤ shadow_address_debit ds at +ℤ address_cost d
unfolding shadow_address_debit total address_cost
shadow_after d ds at = elim (Bool-cases (ltb_ℤ at d.occurred_at)) [
  | inl e ↦ rw e (swaps (shadow_address_debit ds at) (address_cost d))
  | inr e ↦ rw e (grows (shadow_address_debit ds at) (address_cost d) (omega arith))
]

left_after :
    (d : NetworkAttemptDebit) (ds : List NetworkAttemptDebit) (s : Option RemoteActionSnapshot)
    → address_left ds s ≤ℤ address_left (d ∷ ds) s +ℤ address_cost d
unfolding address_left
left_after d ds none = grows (pos 0) (address_cost d) (cost_positive d)
left_after d ds (some s) =
    slack (remote_remaining s) (shadow_address_debit ds s.observed_at)
      (shadow_address_debit (d ∷ ds) s.observed_at) (address_cost d)
      (shadow_after d ds s.observed_at) (cost_positive d)

debit_costs :
    (c c' : ActionBudgetController) (d : NetworkAttemptDebit) (new : Bool)
    → debit_network_attempt c d ≡ ok (c', new)
    → (address_remaining c ≤ℤ address_remaining c' +ℤ address_cost d)
      × (required_cancel_reserve c' ≡ required_cancel_reserve c)
unfolding debit_network_attempt address_remaining required_cancel_reserve
debit_costs c c' d new h = elim (Option-cases (find d.attempt_id c.attempts)) [
  | inl e ↦
      let same : c' ≡ record c { attempts = d ∷ c.attempts } = ground (arith, e) in
      simp same (left_after d c.attempts c.remote_snapshot, refl)
  | inr (old, e) ↦
      let same : c' ≡ c = ground (arith, e) in
      simp same (grows (address_remaining c) (address_cost d) (cost_positive d), refl)
]

module _ (fl : BudgetFloats) (w : Wide) (s : BudgetSettings fl) where
  within_of_granted :
      (c : ActionBudgetController) (r : PermissionRequest) (mode : ActionBudgetMode) (now : ℤ)
      (a : BudgetAction)
      → a ≢ cancel
      → r.emergency ≡ false
      → MayDispatch fl w s c r mode now a
      → IsWithinReserves fl w s c r mode now
  within_of_granted c r mode now cancel n e h = absurd (n refl)
  within_of_granted c r mode now place n e h = h
  within_of_granted c r mode now modify n e h = h
  within_of_granted c r mode now close n e (inl (x, y, z)) = cc
  within_of_granted c r mode now close n e (inr (x, h)) = h

  above_reserve :
      (c : ActionBudgetController) (n : ℤ)
      → pos 0 <ℤ n
      → n ≤ℤ placement_remaining_raw fl w s c
      → required_cancel_reserve c +ℤ s.close_action_reserve +ℤ n ≤ℤ address_remaining c
  unfolding placement_remaining_raw ◌+ℤ◌ ◌-ℤ◌
  above_reserve c n h k = ground arith

  -- If a request that is no cancel and no emergency is permitted, and an attempt with as many
  -- actions is then debited, the address actions that remain are at least the reserve for
  -- cancels and the reserve for closes together.
  pub debit_keeps_reserve :
      (c c' : ActionBudgetController) (r : PermissionRequest) (now later : ℤ)
      (d : NetworkAttemptDebit) (new : Bool)
      → IsGranted (permission fl w s c r now later)
      → r.action ≢ cancel
      → r.emergency ≡ false
      → address_cost d ≡ r.child_actions
      → debit_network_attempt c d ≡ ok (c', new)
      → required_cancel_reserve c' +ℤ s.close_action_reserve ≤ℤ address_remaining c'
  debit_keeps_reserve c c' r now later d new g n e k h =
      let parts = (permission_iff fl w s c r now later).0 g in
      let within = within_of_granted c r parts.2.0 later r.action n e parts.2.2 in
      let above = above_reserve c r.child_actions parts.0 within.1 in
      let cost = debit_costs c c' d new h in
      rw cost.1 (
        covers (required_cancel_reserve c +ℤ s.close_action_reserve) (address_remaining c)
          (address_remaining c') (address_cost d) (rw k above) cost.0)
