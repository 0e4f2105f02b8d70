-- ===== src/Decimal.antt =====
-- Exact decimals of crates/domain/src/decimal.rs: an i128 scaled by 10^-18. A value whose `raw` is
-- outside the i128 range stands for none of the code's; the operations are shown to stay inside.
pub mod WideInteger
pub mod Machine
pub mod Narrowing
pub mod Reads
pub mod Addition
pub mod Products
pub mod Quotients
pub mod Integral
pub mod Places
pub mod Text
pub mod Steps
mod Tests
use hype_edge.Common.{
  ℕ, zero, suc, ◌+◌, ◌-◌, ◌*◌, ◌/◌, ◌%◌, ◌^◌, Bool, true, false, Option, none, some, leb, ltb, ◌==◌,
  if◌then◌else◌,
}
use hype_edge.Common.Result.{Result, ok, err}
use hype_edge.Common.Int.{
  ℤ, pos, negsuc, ◌+ℤ◌, ◌-ℤ◌, ◌*ℤ◌, ◌/ℤ◌, ◌%ℤ◌, neg, is_neg, magnitude, ltb_ℤ, leb_ℤ, eq_ℤ, differ,
}
use Machine.{
  i128_max, i128_min, saturate, checked, saturating_add, saturating_sub, saturating_neg,
  checked_mul, checked_abs,
}
use WideInteger.{Wide, wrap_i128}
use Narrowing.{signed_to_i128}

pub record Decimal : Type 0 where
  pub raw : ℤ

abbrev pub scale : ℕ
scale = 18

-- 10^18.
abbrev pub scale_unit : ℕ
scale_unit = 1_000_000_000_000_000_000

abbrev pub scale_i128 : ℤ
scale_i128 = pos scale_unit

abbrev pub decimal_zero : Decimal
decimal_zero = record { raw = pos 0 }

abbrev pub decimal_one : Decimal
decimal_one = record { raw = scale_i128 }

abbrev pub decimal_max : Decimal
decimal_max = record { raw = i128_max }

abbrev pub decimal_min : Decimal
decimal_min = record { raw = i128_min }

pub data DecimalError : Type 0 where
  invalid_format not_finite too_many_significant_digits too_many_fractional_digits : DecimalError
  out_of_range : DecimalError

-- The loop `while i < e { r *= 10; i += 1; }`, by the rounds left.
pow10_loop : ℕ → ℕ → ℕ
pow10_loop zero r = r
pow10_loop (suc rounds) r = pow10_loop rounds (r * 10)

unfoldable pub pow10 : ℕ → ℕ
unfolding pow10_loop
pow10 e = pow10_loop e 1

-- `none` is the panic on overflow.
unfoldable pub from_i128 : ℤ → Option Decimal
unfolding ◌*ℤ◌
from_i128 v = elim (checked_mul v scale_i128) [
  | some raw ↦ some (record { raw = raw })
  | none ↦ none
]

unfoldable pub is_zero : Decimal → Bool
is_zero d = eq_ℤ d.raw (pos 0)

unfoldable pub is_negative : Decimal → Bool
is_negative d = ltb_ℤ d.raw (pos 0)

unfoldable pub is_positive : Decimal → Bool
is_positive d = ltb_ℤ (pos 0) d.raw

unfoldable pub abs : Decimal → Decimal
abs d = elim (checked_abs d.raw) [ some v ↦ record { raw = v } | none ↦ record { raw = i128_max } ]

unfoldable pub max : Decimal → Decimal → Decimal
max a b = if leb_ℤ b.raw a.raw then a else b

unfoldable pub min : Decimal → Decimal → Decimal
min a b = if leb_ℤ a.raw b.raw then a else b

unfoldable pub clamp : Decimal → Decimal → Decimal → Decimal
clamp d lo hi = if ltb_ℤ d.raw lo.raw then lo else if ltb_ℤ hi.raw d.raw then hi else d

unfoldable pub add : Decimal → Decimal → Decimal
add a b = record { raw = saturating_add a.raw b.raw }

unfoldable pub sub : Decimal → Decimal → Decimal
sub a b = record { raw = saturating_sub a.raw b.raw }

unfoldable pub negate : Decimal → Decimal
negate a = record { raw = saturating_neg a.raw }

unfoldable pub quantize : Decimal → ℕ → Decimal
quantize d places =
    if leb scale places
    then d
    else (let unit = pos (pow10 (scale - places)) in record { raw = d.raw /ℤ unit *ℤ unit })

unfoldable pub round_to_places : Decimal → ℕ → Decimal
round_to_places d places =
    if leb scale places
    then d
    else (let unit = pos (pow10 (scale - places)) in
        let half = unit /ℤ pos 2 in
        let sign = if ltb_ℤ d.raw (pos 0) then negsuc 0 else pos 1 in
        let mag = saturating_add (elim (checked_abs d.raw) [ some v ↦ v | none ↦ i128_max ]) half in
        record { raw = mag /ℤ unit *ℤ unit *ℤ sign })

-- A raw value at another scale; the multiplication is a plain `*`, which wraps.
unfoldable pub from_scaled : ℤ → ℕ → Decimal
unfolding ◌*ℤ◌ ◌/ℤ◌
from_scaled raw s =
    if s == scale
    then record { raw = raw }
    else if ltb s scale
    then record { raw = wrap_i128 (raw *ℤ pos (pow10 (scale - s))) }
    else record { raw = raw /ℤ pos (pow10 (s - scale)) }

unfoldable pub with_exponent_pos : ℤ → ℕ → Result DecimalError Decimal
with_exponent_pos coeff e = elim (checked_mul coeff (pos (pow10 e))) [
  | some raw ↦ ok (record { raw = raw })
  | none ↦ err out_of_range
]

-- The branch for a negative exponent -e.
unfoldable pub with_exponent_neg : ℤ → ℕ → Result DecimalError Decimal
with_exponent_neg coeff e =
    if ltb scale e
    then ok (record { raw = coeff /ℤ pos (pow10 e) })
    else (elim (checked_mul coeff (pos (pow10 (scale - e)))) [
      | some raw ↦ ok (record { raw = raw })
      | none ↦ err out_of_range
    ])

unfoldable pub with_exponent : ℤ → ℤ → Result DecimalError Decimal
unfolding with_exponent_pos with_exponent_neg
with_exponent coeff (pos e) = with_exponent_pos coeff e
with_exponent coeff (negsuc e) = with_exponent_neg coeff (suc e)

-- The loop of `as_tuple`, by the digits that may still be dropped: -18 ≤ exp < 0 bounds its rounds.
unfoldable pub strip_zeros : ℕ → ℤ → ℤ × ℤ
unfolding ◌/ℤ◌ ◌%ℤ◌
strip_zeros zero raw = (raw, pos 0)
strip_zeros (suc left) raw =
    let rest = strip_zeros left (raw /ℤ pos 10) in
    if eq_ℤ raw (pos 0)
    then (raw, negsuc left)
    else if eq_ℤ (raw %ℤ pos 10) (pos 0)
    then rest
    else (raw, negsuc left)

unfoldable pub as_tuple : Decimal → ℤ × ℤ
unfolding strip_zeros
as_tuple d = strip_zeros 18 d.raw

module _ (w : Wide) where
  open w use {I256, of_i128, of_u128, is_negative as wide_negative, minus, div as wide_div}

  -- Floor and ceiling to an integer.
  unfoldable pub floor : Decimal → Decimal
  unfolding signed_to_i128 ◌/ℤ◌ ◌%ℤ◌
  floor d =
      let int = of_i128 (d.raw /ℤ scale_i128) in
      let frac = d.raw %ℤ scale_i128 in
      let base = if ltb_ℤ frac (pos 0) then w.sub int (of_i128 (pos 1)) else int in
      record { raw = signed_to_i128 w (w.mul base (of_i128 scale_i128)) }

  unfoldable pub ceil : Decimal → Decimal
  unfolding signed_to_i128 ◌/ℤ◌ ◌%ℤ◌
  ceil d =
      let int = of_i128 (d.raw /ℤ scale_i128) in
      let frac = d.raw %ℤ scale_i128 in
      let base = if ltb_ℤ (pos 0) frac then w.add int (of_i128 (pos 1)) else int in
      record { raw = signed_to_i128 w (w.mul base (of_i128 scale_i128)) }

  -- Rounded half away from zero.
  unfoldable pub mul : Decimal → Decimal → Decimal
  unfolding signed_to_i128
  mul x y =
      let prod = w.mul (of_i128 x.raw) (of_i128 y.raw) in
      let half =
        if wide_negative prod
        then minus (of_i128 (pos 500_000_000_000_000_000))
        else of_i128 (pos 500_000_000_000_000_000) in
      let scaled = wide_div (w.add prod half) (of_i128 scale_i128) in
      record { raw = signed_to_i128 w scaled }

  -- `none` is the panic on a zero divisor.
  unfoldable pub div : Decimal → Decimal → Option Decimal
  unfolding signed_to_i128 is_zero
  div x y =
      if is_zero y
      then none
      else (let negative = differ (ltb_ℤ x.raw (pos 0)) (ltb_ℤ y.raw (pos 0)) in
          let num = w.mul (of_u128 (magnitude x.raw)) (of_i128 scale_i128) in
          let den = of_u128 (magnitude y.raw) in
          let q = wide_div (w.add num (wide_div den (of_i128 (pos 2)))) den in
          let q = if negative then minus q else q in some (record { raw = signed_to_i128 w q }))

  -- Down and up to a multiple of `step`.
  unfoldable pub floor_to_step : Decimal → Decimal → Option Decimal
  unfolding div floor mul
  floor_to_step d step = elim (div d step) [ some q ↦ some (mul (floor q) step) | none ↦ none ]

  unfoldable pub ceil_to_step : Decimal → Decimal → Option Decimal
  unfolding div ceil mul
  ceil_to_step d step = elim (div d step) [ some q ↦ some (mul (ceil q) step) | none ↦ none ]
