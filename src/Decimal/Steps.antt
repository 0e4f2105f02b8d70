-- ===== src/Decimal/Steps.antt =====
-- Values floored to a multiple of a step: crates/domain/src/decimal.rs, `floor_to_step`.
use native.Mathlib.Nat.{
  div-div-eq-div-mul, mul_comm, mul-le-mul, div-mul-le_self, one-mul, add-mul-div_right,
  div-eq_of_lt,
}
use hype_edge.Common.{
  ℕ, ◌+◌, ◌-◌, ◌*◌, ◌/◌, ◌^◌, ◌<◌, ◌≤◌, ◌≡◌, sym, ap, ◌∙◌, false, arith, Option, none, some,
  if◌then◌else◌, leb, ltb, inl, inr, Bool-cases,
}
use hype_edge.Common.Int.{ℤ, pos, ◌*ℤ◌, ◌/ℤ◌, ◌%ℤ◌}
use hype_edge.Decimal.{Decimal, floor_to_step, floor, mul, div, is_zero, scale_unit, scale_i128}
use hype_edge.Decimal.Machine.{saturate}
use hype_edge.Decimal.WideInteger.{Wide}
use hype_edge.Decimal.Products.{mul-eq, round_unit}
use hype_edge.Decimal.Quotients.{div-eq, quotient_magnitude}
use hype_edge.Decimal.Integral.{floor-eq, floor_base}

abbrev pub positive : ℕ → Decimal
positive n = record { raw = pos n }

-- The steps that are counted: at most the integers that a decimal holds.
abbrev pub max_steps : ℕ
max_steps = 170141183460469231731

abbrev at_most_max : ℕ → ℕ
at_most_max n = if leb n max_steps then n else max_steps

abbrev pub steps_below : ℕ → ℕ → ℕ
steps_below value step = at_most_max (value / step)

abbrev unit_ratio : ℕ → ℕ → ℕ
unit_ratio value step = quotient_magnitude value step / scale_unit

numerator_units : (v s : ℕ) → s ≤ scale_unit → (v * scale_unit + s / 2) / scale_unit ≡ v
numerator_units v s h = omega arith

le_self : (s : ℕ) → s ≤ s
le_self s = omega arith

ratio_swap : (v s : ℕ) → unit_ratio v s ≡ (v * scale_unit + s / 2) / scale_unit / s
ratio_swap v s =
    div-div-eq-div-mul (v * scale_unit + s / 2) s scale_unit
    ∙ ap (λ n. (v * scale_unit + s / 2) / n) (mul_comm s scale_unit)
    ∙ sym (div-div-eq-div-mul (v * scale_unit + s / 2) scale_unit s)

-- For a step of at most 1, the rounding of the quotient does not reach the next integer.
ratio_exact : (v s : ℕ) → s ≤ scale_unit → unit_ratio v s ≡ v / s
ratio_exact v s h = ratio_swap v s ∙ ap (λ n. n / s) (numerator_units v s h)

not_zero : (s : ℕ) → 0 < s → is_zero (positive s) ≡ false
unfolding is_zero
not_zero s h = ground arith

saturated_steps :
    (q : ℕ)
    → let k = if leb (q / scale_unit) max_steps then q / scale_unit else max_steps in
      (r : ℕ) × (saturate (pos q) ≡ pos r) × (r < 2 ^ 127) × (r / scale_unit ≡ k)
saturated_steps q = elim (Bool-cases (ltb q (2 ^ 127))) [
  | inl fits ↦ (q, ground arith, ground arith, ground arith)
  | inr over ↦ (2 ^ 127 - 1, ground arith, omega arith, ground arith)
]

floor_base_positive :
    (r : ℕ)
    → r < 2 ^ 127
    → saturate (floor_base (pos r) *ℤ scale_i128) ≡ pos (r / scale_unit * scale_unit)
unfolding ◌/ℤ◌ ◌%ℤ◌ ◌*ℤ◌
floor_base_positive r h = ground arith

product_units :
    (k s : ℕ)
    → k * s < 2 ^ 127
    → saturate (round_unit (pos (k * scale_unit) *ℤ pos s)) ≡ pos (k * s)
unfolding ◌*ℤ◌
product_units k s h =
    let swapped : k * scale_unit * s ≡ k * s * scale_unit = grind arith in rw swapped (ground arith)

-- One unit below a multiple of a step of at least 2, the rounded quotient is the multiple.
ratio_carries : (n s : ℕ) → 0 < n → 2 * scale_unit ≤ s → unit_ratio (n * s - 1) s ≡ n
ratio_carries n s hn large =
    let past = s / 2 / scale_unit - 1 in
    let whole : s ≤ n * s = rw (one-mul s) at (mul-le-mul hn (le_self s)) in
    let units : ((n * s - 1) * scale_unit + s / 2) / scale_unit ≡ past + n * s = omega arith in
    let gone : past / s ≡ 0 = div-eq_of_lt (omega arith) in
    ratio_swap (n * s - 1) s
    ∙ ap (λ m. m / s) units
    ∙ add-mul-div_right past n (omega arith)
    ∙ omega (arith, gone)

-- The step that a value is floored to, by its quotient: the integers up to it.
pub steps-le : (v s : ℕ) → steps_below v s * s ≤ v
steps-le v s = grind (arith, div-mul-le_self v s)

module _ (w : Wide) where
  floor-positive :
      (r : ℕ) → r < 2 ^ 127 → floor w (positive r) ≡ positive (r / scale_unit * scale_unit)
  floor-positive r h =
      ap (λ (raw : ℤ). record { raw = raw })
        (floor-eq w (positive r) (h, omega arith) ∙ floor_base_positive r h)

  mul_units :
      (k s : ℕ)
      → k * scale_unit < 2 ^ 127
      → k * s < 2 ^ 127
      → s < 2 ^ 127
      → mul w (positive (k * scale_unit)) (positive s) ≡ positive (k * s)
  mul_units k s hk hks hs =
      ap (λ (raw : ℤ). record { raw = raw })
        (mul-eq w (positive (k * scale_unit)) (positive s) (hk, omega arith) (hs, omega arith)
          ∙ product_units k s hks)

  floor_to_step-div :
      (d step q : Decimal)
      → div w d step ≡ some q
      → floor_to_step w d step ≡ some (mul w (floor w q) step)
  unfolding floor_to_step
  floor_to_step-div d step q e =
      ap (λ (o : Option Decimal). elim o [ some p ↦ some (mul w (floor w p) step) | none ↦ none ]) e

  floor_to_step-ratio :
      (v s k : ℕ)
      → v < 2 ^ 127
      → 0 < s
      → s < 2 ^ 127
      → at_most_max (unit_ratio v s) ≡ k
      → k * s < 2 ^ 127
      → floor_to_step w (positive v) (positive s) ≡ some (positive (k * s))
  floor_to_step-ratio v s k hv hs s_fits counted product =
      let known = saturated_steps (quotient_magnitude v s) in
      let r = known.0 in
      let quotient : div w (positive v) (positive s) ≡ some (positive r) =
        div-eq w (positive v) (positive s) (hv, omega arith) (s_fits, omega arith) (not_zero s hs)
        ∙ ap (λ (raw : ℤ). some (record { raw = raw })) known.1 in
      let count : r / scale_unit ≡ k = known.3 ∙ counted in
      let fits : r / scale_unit * scale_unit < 2 ^ 127 = omega (arith, known.2) in
      let product' : r / scale_unit * s < 2 ^ 127 = rw count product in
      floor_to_step-div (positive v) (positive s) (positive r) quotient
      ∙ ap (λ d. some (mul w d (positive s))) (floor-positive r known.2)
      ∙ ap some (mul_units (r / scale_unit) s fits product' s_fits)
      ∙ ap (λ n. some (positive (n * s))) count

  -- For a value that is not negative and in the i128 range and a step above 0 and at most 1,
  -- `floor_to_step` does not panic and gives the step times a count of steps: the integer
  -- quotient of the two raw values, or 170141183460469231731, the most integers of a decimal, if
  -- that is less.
  pub floor_to_step-eq :
      (v s : ℕ)
      → v < 2 ^ 127
      → 0 < s
      → s ≤ scale_unit
      → floor_to_step w (positive v) (positive s) ≡ some (positive (steps_below v s * s))
  floor_to_step-eq v s hv hs small =
      floor_to_step-ratio v s (steps_below v s) hv hs (omega arith)
        (ap at_most_max (ratio_exact v s small)) (omega (arith, steps-le v s))

  -- For a step of at least 2 and a count n from 1 to 170141183460469231731 whose product with
  -- the raw step is in the i128 range, the value one unit of 10^-18 below n steps is floored to
  -- n steps, above the value.
  pub floor_to_step_overshoots :
      (n s : ℕ)
      → 0 < n
      → 2 * scale_unit ≤ s
      → n ≤ max_steps
      → n * s < 2 ^ 127
      → floor_to_step w (positive (n * s - 1)) (positive s) ≡ some (positive (n * s))
  floor_to_step_overshoots n s positive_n large hn product =
      let whole : s ≤ n * s = rw (one-mul s) at (mul-le-mul positive_n (le_self s)) in
      floor_to_step-ratio (n * s - 1) s n (omega arith) (omega arith) (omega arith)
        (ap at_most_max (ratio_carries n s positive_n large) ∙ ground arith) product
