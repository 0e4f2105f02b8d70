-- ===== src/Order/Names.antt =====
-- The names of the order states, which cross the database and the JSON boundary.
use Prim.Native.String.{String}
use text.Mathlib.Text.{◌==◌ as str_eq}
use text.Mathlib.TextEquality.{eq_iff}
use hype_edge.Common.{◌≡◌, refl, Option, some, arith, if◌then◌else◌}
use hype_edge.Order.{
  OrderStatus, pending, submitted, submit_unknown, acknowledged, partial_fill, cancel_unknown,
  filled, cancelled, rejected, expired, as_str, from_str,
}

-- The name of an order state is read back as that state.
pub from_str-as_str : (s : OrderStatus) → from_str (as_str s) ≡ some s
unfolding from_str as_str
from_str-as_str pending = refl
from_str-as_str _ = refl

one_name :
    (x : OrderStatus) (t : String) (rest : Option OrderStatus) {s : OrderStatus}
    → (rest ≡ some s → as_str s ≡ t)
    → (if str_eq t (as_str x) then some x else rest) ≡ some s
    → as_str s ≡ t
one_name x t rest later h = ground (arith, eq_iff t (as_str x), later)

-- A name that is read as an order state is the name by which that state is written.
pub as_str-from_str : (t : String) {s : OrderStatus} → from_str t ≡ some s → as_str s ≡ t
unfolding from_str as_str
as_str-from_str t {s} = step pending (
    step submitted (
      step submit_unknown (
        step acknowledged (
          step partial_fill (
            step cancel_unknown
              (step filled (step cancelled (step rejected (step expired (λ h. cc))))))))))
  where
    step :
        (x : OrderStatus) {rest : Option OrderStatus}
        → (rest ≡ some s → as_str s ≡ t)
        → (if str_eq t (as_str x) then some x else rest) ≡ some s
        → as_str s ≡ t
    step x {rest} = one_name x t rest
