-- ===== src/Safety/Placement.antt =====
-- What the permission lifecycle lets through, crates/trading/src/risk/safety.rs.
use Prim.Native.String.{String}
use hype_edge.Common.{
  ◌≡◌, ◌≢◌, refl, ◌∙◌, ◌↔◌, ◌⊎◌, true, ◌||◌, List, [], ◌∷◌, arith, Bool-cases, inl, inr,
}
use hype_edge.Common.Result.{ok}
use hype_edge.Safety.{
  SafetyMode, normal, reduce_only, cancel_only, SafetyState, OrderIntent, check_placement,
  enter_cancel_only, transition, is_halt,
}

placement_cases :
    (m : SafetyMode) (s : SafetyState) (i : OrderIntent)
    → s.mode ≡ m
    → (check_placement s i ≡ ok tt)
      ↔ ((m ≡ normal) ⊎ ((m ≡ reduce_only) × ((i.is_reduce_only || i.risk_reducing) ≡ true)))
unfolding check_placement
placement_cases m s i e = (λ h. ground arith, λ h. ground arith)

-- A placement is permitted exactly in normal mode, and in reduce-only mode if the intent is
-- reduce-only or risk-reducing.
pub placement_iff :
    (s : SafetyState) (i : OrderIntent)
    → (check_placement s i ≡ ok tt) ↔ (
        (s.mode ≡ normal)
        ⊎ ((s.mode ≡ reduce_only) × ((i.is_reduce_only || i.risk_reducing) ≡ true)))
placement_iff s i = placement_cases s.mode s i refl

-- The degradations reported one after the other.
unfoldable pub degrade : SafetyState → List String → SafetyState
unfolding enter_cancel_only
degrade s [] = s
degrade s (r ∷ rs) = degrade (enter_cancel_only s r) rs

IsShut : SafetyMode → Type 0
IsShut m = (m ≡ cancel_only) ⊎ (is_halt m ≡ true)

enter_cancel_only-IsShut : (s : SafetyState) (r : String) → IsShut (enter_cancel_only s r).mode
unfolding IsShut enter_cancel_only
enter_cancel_only-IsShut s r = elim (Bool-cases (is_halt s.mode)) [
  | inl e ↦ inr (ground arith)
  | inr e ↦ inl (ground arith)
]

degrade-IsShut : (s : SafetyState) (rs : List String) → IsShut s.mode → IsShut (degrade s rs).mode
unfolding degrade
degrade-IsShut s [] h = h
degrade-IsShut s (r ∷ rs) h =
    degrade-IsShut (enter_cancel_only s r) rs (enter_cancel_only-IsShut s r)

shut_placement : (s : SafetyState) (i : OrderIntent) → IsShut s.mode → check_placement s i ≢ ok tt
unfolding IsShut is_halt
shut_placement s i (inl e) h = ground (arith, (placement_iff s i).0 h)
shut_placement s i (inr e) h = ground (arith, (placement_iff s i).0 h)

enter_cancel_only-is_halt :
    (s : SafetyState) (r : String) → is_halt (enter_cancel_only s r).mode ≡ is_halt s.mode
unfolding enter_cancel_only transition is_halt
enter_cancel_only-is_halt s r = ground arith

degrade-is_halt :
    (s : SafetyState) (rs : List String) → is_halt (degrade s rs).mode ≡ is_halt s.mode
unfolding degrade
degrade-is_halt s [] = refl
degrade-is_halt s (r ∷ rs) =
    degrade-is_halt (enter_cancel_only s r) rs ∙ enter_cancel_only-is_halt s r

-- After one or more degradations to cancel-only, from any mode, no placement is permitted, and
-- the controller is halted or halting exactly if it was before.
pub degrade_blocks :
    (s : SafetyState) (r : String) (rs : List String) (i : OrderIntent)
    → (check_placement (degrade s (r ∷ rs)) i ≢ ok tt)
      × (is_halt (degrade s (r ∷ rs)).mode ≡ is_halt s.mode)
unfolding degrade
degrade_blocks s r rs i = (
  shut_placement (degrade s (r ∷ rs)) i
      (degrade-IsShut (enter_cancel_only s r) rs (enter_cancel_only-IsShut s r)),
  degrade-is_halt s (r ∷ rs),
)
