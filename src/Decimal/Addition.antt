-- ===== src/Decimal/Addition.antt =====
-- Sums, differences, signs and magnitudes of decimals: crates/domain/src/decimal.rs, the saturating
-- `Add`, `Sub` and `Neg`, `abs` and `clamp`.
use hype_edge.Common.{◌≡◌, ◌⊎◌, arith}
use hype_edge.Common.Int.{pos, ◌+ℤ◌, ◌-ℤ◌, ◌≤ℤ◌, magnitude}
use hype_edge.Decimal.{Decimal, add, sub, negate, abs, clamp, decimal_max}
use hype_edge.Decimal.WideInteger.{InI128}
use hype_edge.Decimal.Machine.{i128_min}

-- The operations never leave the i128 range, whatever the operands.
pub add_range :
    (a b : Decimal) → InI128 (add a b).raw × InI128 (sub a b).raw × InI128 (negate a).raw
unfolding add sub negate
add_range a b = (ground arith, ground arith, ground arith)

pub add_fits : (a b : Decimal) → InI128 (a.raw +ℤ b.raw) → (add a b).raw ≡ a.raw +ℤ b.raw
unfolding add
add_fits a b h = ground arith

-- Where the sum of two decimals fits the i128 range, subtracting the second from the sum gives
-- back the first.
pub sub-add : (a b : Decimal) → InI128 a.raw → InI128 (a.raw +ℤ b.raw) → sub (add a b) b ≡ a
unfolding add sub ◌+ℤ◌ ◌-ℤ◌
sub-add a b ha h = ground arith

-- Addition keeps the order of its operands, also where it saturates.
pub add_mono :
    (a b c d : Decimal) → a.raw ≤ℤ b.raw → c.raw ≤ℤ d.raw → (add a c).raw ≤ℤ (add b d).raw
unfolding add ◌+ℤ◌
add_mono a b c d h k = ground arith

-- The absolute value is never negative; it is the magnitude, but for the least i128.
pub abs-magnitude :
    (d : Decimal)
    → InI128 d.raw
    → (pos 0 ≤ℤ (abs d).raw)
      × InI128 (abs d).raw
      × (((abs d).raw ≡ pos (magnitude d.raw)) ⊎ ((d.raw ≡ i128_min) × (abs d ≡ decimal_max)))
unfolding abs
abs-magnitude d h = ground arith

pub clamp_bounds :
    (d lo hi : Decimal)
    → lo.raw ≤ℤ hi.raw
    → (lo.raw ≤ℤ (clamp d lo hi).raw)
      × ((clamp d lo hi).raw ≤ℤ hi.raw)
      × (lo.raw ≤ℤ d.raw → d.raw ≤ℤ hi.raw → clamp d lo hi ≡ d)
unfolding clamp
clamp_bounds d lo hi h = (ground arith, ground arith, λ p q. ground arith)
