-- ===== src/Batch/Child.antt =====
-- The state machine of one child: `record_attempt` and `resolve`, in any order.
use Prim.Native.String.{String}
use hype_edge.Common.{◌≡◌, refl, ap, ◌∙◌, true, ◌||◌, Option, arith}
use hype_edge.Common.Result.{ok}
use hype_edge.Batch.{
  ChildOutcome, BatchChild, NetworkAttempt, is_terminal, same_outcome, record_attempt, resolve,
}

pub data ChildStep (c c' : BatchChild) : Type 0 where
  attempt : (a : NetworkAttempt) → record_attempt c a ≡ ok c' → ChildStep c c'
  result : (o : ChildOutcome) (r : Option String) → resolve c o r ≡ ok c' → ChildStep c c'

pub data ChildReach (c : BatchChild) : BatchChild → Type 0 where
  here : ChildReach c c
  next : {d e : BatchChild} → ChildReach c d → ChildStep d e → ChildReach c e

step-terminal : {c c' : BatchChild} → ChildStep c c' → is_terminal c.outcome ≡ true → c' ≡ c
step-terminal (attempt a e) t = unfold record_attempt in ground arith
step-terminal (result o r e) t = unfold resolve in ground arith

-- A child in a terminal outcome is left unchanged by every accepted attempt and result.
pub ChildReach-terminal :
    {c c' : BatchChild} → ChildReach c c' → is_terminal c.outcome ≡ true → c' ≡ c
ChildReach-terminal here t = refl
ChildReach-terminal (next r s) t =
    let same = ChildReach-terminal r t in
    step-terminal s (ap (λ (d : BatchChild). is_terminal d.outcome) same ∙ t) ∙ same

-- A child whose fate is unknown, or known for good.
abbrev pub IsSettled : BatchChild → Type 0
IsSettled c = (is_terminal c.outcome || same_outcome c.outcome ChildOutcome.unknown) ≡ true

step-IsSettled :
    {c c' : BatchChild} → ChildStep c c' → IsSettled c → IsSettled c' × (c'.attempts ≡ c.attempts)
step-IsSettled (attempt a e) t = unfold record_attempt in ground arith
step-IsSettled (result o r e) t = unfold resolve in ground arith

-- However attempts and results are recorded afterwards, a child that is unknown or terminal
-- stays unknown or terminal, and no attempt is added to it: it is never resent.
pub ChildReach-IsSettled :
    {c c' : BatchChild} → ChildReach c c' → IsSettled c → IsSettled c' × (c'.attempts ≡ c.attempts)
ChildReach-IsSettled here t = (t, refl)
ChildReach-IsSettled (next r s) t =
    let (settled, same) = ChildReach-IsSettled r t in
    let (still, kept) = step-IsSettled s settled in (still, kept ∙ same)
