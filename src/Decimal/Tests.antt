-- ===== src/Decimal/Tests.antt =====
-- Runs of the decimal arithmetic with the integers themselves as the wide integers, and its theorems
-- at concrete values.
use hype_edge.Common.{◌*◌, ◌-◌, ◌≡◌, refl, true, some, arith}
use hype_edge.Common.Int.{ℤ, pos, negsuc, ◌+ℤ◌, ◌-ℤ◌, ◌*ℤ◌, ◌/ℤ◌, ◌%ℤ◌, neg, magnitude}
use hype_edge.Decimal.{Decimal, mul, div, floor_to_step, floor, is_zero}
use hype_edge.Decimal.WideInteger.{exact_wide}
use hype_edge.Decimal.Machine.{saturate}
use hype_edge.Decimal.Products.{IsNearest, mul-IsNearest}
use hype_edge.Decimal.Quotients.{IsQuotient, div_nearest}
use hype_edge.Decimal.Steps.{positive, floor_to_step-eq, floor_to_step_overshoots}

-- 1.5 and -2.25.
abbrev three_halves : Decimal
three_halves = record { raw = pos 1_500_000_000_000_000_000 }

abbrev minus_nine_quarters : Decimal
minus_nine_quarters = record { raw = negsuc 2_249_999_999_999_999_999 }

product : (mul exact_wide three_halves minus_nine_quarters).raw ≡ negsuc 3_374_999_999_999_999_999
unfolding mul ◌*ℤ◌ ◌+ℤ◌ ◌/ℤ◌ neg
product = refl

floored : (floor exact_wide minus_nine_quarters).raw ≡ negsuc 2_999_999_999_999_999_999
unfolding floor ◌*ℤ◌ ◌-ℤ◌ ◌/ℤ◌ ◌%ℤ◌
floored = refl

mul-IsNearest_example :
    (q : ℤ) × IsNearest true (magnitude three_halves.raw * magnitude minus_nine_quarters.raw) q
    × ((mul exact_wide three_halves minus_nine_quarters).raw ≡ saturate q)
mul-IsNearest_example =
    mul-IsNearest exact_wide three_halves minus_nine_quarters (omega arith) (omega arith)

div_nearest_example :
    (q : ℤ) × IsQuotient true (magnitude three_halves.raw) (magnitude minus_nine_quarters.raw) q
    × (div exact_wide three_halves minus_nine_quarters ≡ some (record { raw = saturate q }))
unfolding is_zero
div_nearest_example =
    div_nearest exact_wide three_halves minus_nine_quarters (omega arith) (omega arith) refl

-- 1.2345 floored to a step of 0.001.
floor_to_step-eq_example :
    floor_to_step exact_wide (positive 1_234_500_000_000_000_000) (positive 1_000_000_000_000_000)
    ≡ some (positive (1_234 * 1_000_000_000_000_000))
floor_to_step-eq_example =
    floor_to_step-eq exact_wide 1_234_500_000_000_000_000 1_000_000_000_000_000 (omega arith)
      (omega arith) (omega arith)

-- 9.999999999999999999 floored to a step of 10 is 10.
floor_to_step_overshoots_example :
    floor_to_step exact_wide
      (positive (1 * 10_000_000_000_000_000_000 - 1))
      (positive 10_000_000_000_000_000_000)
    ≡ some (positive (1 * 10_000_000_000_000_000_000))
floor_to_step_overshoots_example =
    floor_to_step_overshoots exact_wide 1 10_000_000_000_000_000_000 (omega arith) (omega arith)
      (omega arith) (omega arith)
