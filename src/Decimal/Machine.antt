-- ===== src/Decimal/Machine.antt =====
-- The i128 arithmetic of the standard library that crates/domain/src/decimal.rs calls.
use hype_edge.Common.{◌-◌, ◌^◌, Bool, Option, none, some, leb, ltb, ◌&&◌, if◌then◌else◌}
use hype_edge.Common.Int.{
  ℤ, pos, negsuc, pos_part, neg_part, ◌+ℤ◌, ◌-ℤ◌, ◌*ℤ◌, neg, is_neg, magnitude,
}

abbrev pub i128_max : ℤ
i128_max = pos (2 ^ 127 - 1)

abbrev pub i128_min : ℤ
i128_min = negsuc (2 ^ 127 - 1)

abbrev pub fits_i128 : ℤ → Bool
fits_i128 a = ltb (pos_part a) (2 ^ 127) && leb (neg_part a) (2 ^ 127)

-- The nearest i128.
abbrev pub saturate : ℤ → ℤ
saturate a = if fits_i128 a then a else (if is_neg a then i128_min else i128_max)

-- The value, or nothing on overflow.
abbrev pub checked : ℤ → Option ℤ
checked a = if fits_i128 a then some a else none

abbrev pub saturating_add : ℤ → ℤ → ℤ
saturating_add a b = saturate (a +ℤ b)

abbrev pub saturating_sub : ℤ → ℤ → ℤ
saturating_sub a b = saturate (a -ℤ b)

abbrev pub saturating_neg : ℤ → ℤ
saturating_neg a = saturate (neg a)

abbrev pub checked_mul : ℤ → ℤ → Option ℤ
checked_mul a b = checked (a *ℤ b)

abbrev pub checked_abs : ℤ → Option ℤ
checked_abs a = checked (pos (magnitude a))
