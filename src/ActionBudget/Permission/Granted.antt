-- ===== src/ActionBudget/Permission/Granted.antt =====
-- When the action budget permits a dispatch, crates/trading/src/risk/action_budget.rs.
use Prim.Native.String.{String}
use hype_edge.Common.{
  ℕ, ◌≡◌, ◌↔◌, ◌⊎◌, inl, inr, refl, Bool, true, false, not, ◌&&◌, Option, none, some, arith,
  Bool-cases, Option-cases, if◌then◌else◌,
}
use hype_edge.Common.Int.{ℤ, pos, ◌+ℤ◌, ◌-ℤ◌, ltb_ℤ, ◌≤ℤ◌, ◌<ℤ◌}
use hype_edge.Common.Result.{Result, ok}
use hype_edge.Decimal.WideInteger.{Wide}
use hype_edge.ActionBudget.{
  BudgetAction, place, cancel, modify, close, BudgetAllocation, ActionBudgetController,
  address_remaining, ip_remaining, allocation_consumed,
}
use hype_edge.ActionBudget.Mode.{ActionBudgetMode}
use hype_edge.ActionBudget.Permission.{
  BudgetFloats, BudgetSettings, denied, BudgetPermission, PermissionRequest, PermissionError,
  is_lenient, calculate_mode, find_allocation, placement_remaining_raw, permission_in_scope,
  placement_permission, emergency_permission, permission_in_mode, permission,
}

-- A permission that is given.
abbrev pub IsGranted : Result PermissionError BudgetPermission → Type 0
IsGranted answer = (p : BudgetPermission) × (answer ≡ ok p) × (p.allowed ≡ true)

either : (a b : Bool) → (not a && not b) ≡ false → (a ≡ true) ⊎ (b ≡ true)
either true b h = inl refl
either false b h = inr (ground arith)

not_below : (a b : ℤ) → ltb_ℤ b a ≡ false → a ≤ℤ b
not_below a b h = ground arith

-- A guard that denies has not fired where the permission is given.
past_guard :
    (b : Bool) (mode : ActionBudgetMode) (reason : String)
    (rest : Result PermissionError BudgetPermission)
    → IsGranted (if b then denied mode reason else rest)
    → (b ≡ false) × IsGranted rest
past_guard true mode reason rest (p, e, k) = ground arith
past_guard false mode reason rest h = (refl, h)

module _ (fl : BudgetFloats) (w : Wide) (s : BudgetSettings fl) where
  -- The request names no scope, or one with an allocation that still has room for it.
  abbrev pub IsInScope : ActionBudgetController → PermissionRequest → Option ℕ → Option ℕ → Type 0
  IsInScope c r strategy symbol =
      ((strategy ≡ none) × (symbol ≡ none))
      ⊎ ((i : ℕ) × (y : ℕ) × (a : BudgetAllocation) × (strategy ≡ some i)
          × (symbol ≡ some y)
          × (find_allocation fl w s i y c.allocations ≡ some a)
          × (allocation_consumed c i y +ℤ r.child_actions ≤ℤ a.hard_limit))

  -- What a placement needs: a mode that permits it, room above the reserves, and a scope.
  abbrev pub IsWithinReserves :
      ActionBudgetController → PermissionRequest → ActionBudgetMode → ℤ → Type 0
  IsWithinReserves c r mode now =
      ((is_lenient mode ≡ true) ⊎ (r.risk_reducing ≡ true))
      × (r.child_actions ≤ℤ placement_remaining_raw fl w s c)
      × (s.ip_emergency_reserve ≤ℤ ip_remaining c now -ℤ r.ip_weight)
      × IsInScope c r r.strategy_id r.symbol

  permission_in_scope-IsInScope :
      (c : ActionBudgetController) (r : PermissionRequest) (mode : ActionBudgetMode)
      (strategy symbol : Option ℕ)
      → IsGranted (permission_in_scope fl w s c r mode strategy symbol)
      → IsInScope c r strategy symbol
  unfolding permission_in_scope
  permission_in_scope-IsInScope c r mode none none h = inl (refl, refl)
  permission_in_scope-IsInScope c r mode none (some y) h = ground (arith, h.1)
  permission_in_scope-IsInScope c r mode (some i) none h = ground (arith, h.1)
  permission_in_scope-IsInScope c r mode (some i) (some y) h =
      elim (Option-cases (find_allocation fl w s i y c.allocations)) [
        | inl e ↦ ground (arith, h.1, h.2)
        | inr (a, e) ↦ inr (i, y, a, refl, refl, e, ground (arith, h.1, h.2))
      ]

  IsInScope-IsGranted :
      (c : ActionBudgetController) (r : PermissionRequest) (mode : ActionBudgetMode)
      (strategy symbol : Option ℕ)
      → IsInScope c r strategy symbol
      → IsGranted (permission_in_scope fl w s c r mode strategy symbol)
  unfolding permission_in_scope
  IsInScope-IsGranted c r mode strategy symbol (inl (e, f)) =
      rw (e, f) (record { allowed = true; mode = mode; reason = "budget available" }, refl, refl)
  IsInScope-IsGranted c r mode strategy symbol (inr (i, y, a, e, f, found, room)) =
      rw (e, f)
        (
          record { allowed = true; mode = mode; reason = "budget available" },
          ground (arith, found, room),
          refl,
        )

  pub placement_permission_iff :
      (c : ActionBudgetController) (r : PermissionRequest) (mode : ActionBudgetMode) (now : ℤ)
      → IsGranted (placement_permission fl w s c r mode now) ↔ IsWithinReserves c r mode now
  unfolding placement_permission
  placement_permission_iff c r mode now = (forth, back)
    where
      forth : IsGranted (placement_permission fl w s c r mode now) → IsWithinReserves c r mode now
      forth h =
          let one =
            past_guard (not (is_lenient mode) && not r.risk_reducing) mode
              "budget mode permits only risk-reducing placement" _ h in
          let two =
            past_guard (ltb_ℤ (placement_remaining_raw fl w s c) r.child_actions) mode
              "address action reserve would be consumed" _ one.1 in
          let three =
            past_guard (ltb_ℤ (ip_remaining c now -ℤ r.ip_weight) s.ip_emergency_reserve) mode
              "IP emergency reserve would be consumed" _ two.1 in
          (
            either (is_lenient mode) r.risk_reducing one.0,
            not_below r.child_actions (placement_remaining_raw fl w s c) two.0,
            not_below s.ip_emergency_reserve (ip_remaining c now -ℤ r.ip_weight) three.0,
            permission_in_scope-IsInScope c r mode r.strategy_id r.symbol three.1,
          )

      back : IsWithinReserves c r mode now → IsGranted (placement_permission fl w s c r mode now)
      back (m, n, o, scope) =
          let g = IsInScope-IsGranted c r mode r.strategy_id r.symbol scope in
          (g.0, ground (arith, g.1), g.2)

  -- The conditions of a request of each kind.
  abbrev pub MayDispatch :
      ActionBudgetController → PermissionRequest → ActionBudgetMode → ℤ → BudgetAction → Type 0
  MayDispatch c r mode now cancel = Unit
  MayDispatch c r mode now close =
      ((r.emergency ≡ true)
        × (r.child_actions ≤ℤ address_remaining c)
        × (r.ip_weight ≤ℤ ip_remaining c now))
      ⊎ ((r.emergency ≡ false) × IsWithinReserves c r mode now)
  MayDispatch c r mode now place = IsWithinReserves c r mode now
  MayDispatch c r mode now modify = IsWithinReserves c r mode now

  in_mode_iff :
      (c : ActionBudgetController) (r : PermissionRequest) (mode : ActionBudgetMode) (now : ℤ)
      (a : BudgetAction)
      → IsGranted (permission_in_mode fl w s c r mode now a) ↔ MayDispatch c r mode now a
  unfolding permission_in_mode emergency_permission
  in_mode_iff c r mode now cancel = (
    λ h. tt,
    λ h. (
      record { allowed = true; mode = mode; reason = "cancel bypasses placement budget gates" },
      refl,
      refl,
    ),
  )
  in_mode_iff c r mode now place = placement_permission_iff c r mode now
  in_mode_iff c r mode now modify = placement_permission_iff c r mode now
  in_mode_iff c r mode now close = (forth, back)
    where
      forth :
          IsGranted (permission_in_mode fl w s c r mode now close) → MayDispatch c r mode now close
      forth (p, e, k) = elim (Bool-cases r.emergency) [
        | inl b ↦ inl (b, ground arith, ground arith)
        | inr b ↦ inr (b, (placement_permission_iff c r mode now).0 (p, ground arith, k))
      ]

      back :
          MayDispatch c r mode now close → IsGranted (permission_in_mode fl w s c r mode now close)
      back (inl (b, n, o)) = (
        record { allowed = true; mode = mode; reason = "emergency close reserve" },
        ground arith,
        refl,
      )
      back (inr (b, h)) =
          let g = (placement_permission_iff c r mode now).1 h in (g.0, ground (arith, g.1), g.2)

  -- A permission is given exactly when the request has at least one action and no negative
  -- weight, the mode can be computed, and: it is a cancel; or an emergency close for which
  -- address actions and request weight remain; or another request in a mode from normal to
  -- conserve or one that reduces risk, whose actions are within what the reserves leave for
  -- placements, whose weight leaves the emergency reserve, and that names no scope or one with
  -- an allocation that has room for it.
  pub permission_iff :
      (c : ActionBudgetController) (r : PermissionRequest) (now later : ℤ)
      → IsGranted (permission fl w s c r now later) ↔ (
          (pos 0 <ℤ r.child_actions)
          × (pos 0 ≤ℤ r.ip_weight)
          × ((mode : ActionBudgetMode) × (calculate_mode fl w s c now ≡ some mode)
              × MayDispatch c r mode later r.action))
  unfolding permission
  permission_iff c r now later = (forth, back)
    where
      forth :
          IsGranted (permission fl w s c r now later)
          → (pos 0 <ℤ r.child_actions)
            × (pos 0 ≤ℤ r.ip_weight)
            × ((mode : ActionBudgetMode) × (calculate_mode fl w s c now ≡ some mode)
                × MayDispatch c r mode later r.action)
      forth (p, e, k) = elim (Option-cases (calculate_mode fl w s c now)) [
        | inl m ↦ ground arith
        | inr (mode, m) ↦ (
          ground arith,
          ground arith,
          (mode, m, (in_mode_iff c r mode later r.action).0 (p, ground arith, k)),
        )
      ]

      back :
          (pos 0 <ℤ r.child_actions)
            × (pos 0 ≤ℤ r.ip_weight)
            × ((mode : ActionBudgetMode) × (calculate_mode fl w s c now ≡ some mode)
                × MayDispatch c r mode later r.action)
          → IsGranted (permission fl w s c r now later)
      back (n, o, (mode, m, h)) =
          let g = (in_mode_iff c r mode later r.action).1 h in (g.0, ground (arith, g.1), g.2)
