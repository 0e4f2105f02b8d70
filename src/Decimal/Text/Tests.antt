-- ===== src/Decimal/Text/Tests.antt =====
-- Runs of the text functions of crates/domain/src/decimal.rs.
use Prim.Native.Char.{code}
use Prim.Native.String.{String}
use hype_edge.Common.{
  ℕ, ◌^◌, ◌*◌, ◌+◌, ◌-◌, ◌≡◌, refl, true, false, ◌≤◌, some, [], ◌∷◌, ◌++◌, arith,
}
use hype_edge.Common.Result.{ok, err}
use hype_edge.Common.Int.{pos, negsuc, signed, ◌*ℤ◌, ◌+ℤ◌, neg}
use hype_edge.Decimal.{Decimal, invalid_format, out_of_range, scale_unit, pow10, negate}
use hype_edge.Decimal.{as_tuple, is_negative}
use hype_edge.Decimal.Text.Scan.{CodePoints, is_whitespace, parse_digits, repeat, trim_end_matches}
use hype_edge.Decimal.Text.Format.{to_exact_string, print_magnitude}
use hype_edge.Decimal.Text.Rounding.{
  to_string, raw_for_display, significant_digits, digit_loop, round_significant_half_even,
  half_even, rebuild, round_python_prec28,
}
use hype_edge.Decimal.Text.Rounding.Halves.{IsNearestEven}
use hype_edge.Decimal.Text.Rounding.Nearest.{prec28_nearest}
use hype_edge.Decimal.Text.Lenient.{from_str_lenient}
use hype_edge.Decimal.Text.Lenient.Agreement.{lenient_of_strict}
use hype_edge.Decimal.Text.Digits.{IsNumeral}
use hype_edge.Decimal.Text.Parts.{IsFraction, significant}
use hype_edge.Decimal.Text.Strict.{strict_exact, strict_wraps}
use hype_edge.Decimal.Text.RoundTrip.{strict-to_exact_string}
use hype_edge.Decimal.Text.{from_str_strict}

-- The code points of a text.
abbrev codes : String → CodePoints
codes String.[] = []
codes (String.◌∷◌ c s) = code c ∷ codes s

abbrev units : ℕ → Decimal
units n = record { raw = pos n }

strict_accepts :
    from_str_strict (codes " -12.50 ")
    ≡ ok (record { raw = negsuc (12_500_000_000_000_000_000 - 1) })
unfolding from_str_strict is_whitespace ◌*ℤ◌ negate neg ◌+ℤ◌
strict_accepts = refl

strict_leading_zero : from_str_strict (codes "05") ≡ err invalid_format
unfolding from_str_strict is_whitespace
strict_leading_zero = refl

lenient_exponent : from_str_lenient (codes "1.5E+3") ≡ ok (units (1500 * scale_unit))
unfolding from_str_lenient is_whitespace ◌*ℤ◌ ◌+ℤ◌
lenient_exponent = refl

lenient_small : from_str_lenient (codes "1e-07") ≡ ok (units 100_000_000_000)
unfolding from_str_lenient is_whitespace ◌*ℤ◌ ◌+ℤ◌
lenient_small = refl

lenient_absurd : from_str_lenient (codes "1e2147483647") ≡ err out_of_range
unfolding from_str_lenient is_whitespace
lenient_absurd = refl

-- A point without digits is read as zero.
lenient_point : from_str_lenient (codes ".") ≡ ok (units 0)
unfolding from_str_lenient is_whitespace ◌*ℤ◌ ◌+ℤ◌
lenient_point = refl

exact_print :
    to_exact_string (record { raw = negsuc (1_050_000_000_000_000_000 - 1) }) ≡ codes "-1.05"
unfolding to_exact_string
exact_print = refl

display_rounds : to_string (units (10 ^ 38 - 1)) ≡ codes "100000000000000000000"
unfolding to_string pow10 raw_for_display significant_digits digit_loop as_tuple
    round_significant_half_even rebuild ◌+ℤ◌ ◌*ℤ◌ is_negative half_even print_magnitude
display_rounds = refl

display_plain : to_string (units 100_000_000_000_000_000) ≡ codes "0.1"
unfolding to_string raw_for_display significant_digits digit_loop as_tuple print_magnitude
display_plain = refl

twelve-IsNumeral : IsNumeral (codes "12") 12
unfolding parse_digits
twelve-IsNumeral = record {
  digits = refl;
  value = refl;
  shape = λ e. cc;
  bare = λ h. refl;
  zero_text = λ e. absurd (omega arith);
}

half-IsFraction : IsFraction (codes "5") 500_000_000_000_000_000
unfolding parse_digits repeat
half-IsFraction = record { short = omega arith; digits = refl; worth = refl; below = omega arith }

strict_exact_example :
    from_str_strict (codes " " ++ (codes "-12.5" ++ []))
    ≡ ok (record { raw = signed true (12 * scale_unit + 500_000_000_000_000_000) })
unfolding significant is_whitespace trim_end_matches
strict_exact_example =
    strict_exact (codes " ") [] true (codes "12") 12 (some (codes "5")) 500_000_000_000_000_000 refl
      refl twelve-IsNumeral refl half-IsFraction (omega arith) (omega arith)

large-IsNumeral : IsNumeral (codes "170141183460469231731") 170141183460469231731
unfolding parse_digits
large-IsNumeral = record {
  digits = refl;
  value = refl;
  shape = λ e. cc;
  bare = λ h. refl;
  zero_text = λ e. absurd (omega arith);
}

nine_tenths-IsFraction : IsFraction (codes "9") 900_000_000_000_000_000
unfolding parse_digits repeat
nine_tenths-IsFraction = record {
  short = omega arith;
  digits = refl;
  worth = refl;
  below = omega arith;
}

strict_wraps_example :
    from_str_strict ([] ++ (codes "170141183460469231731.9" ++ []))
    ≡ ok (record {
      raw = negsuc (2 ^ 128 - 1 - 170_141_183_460_469_231_731_900_000_000_000_000_000);
    })
unfolding significant trim_end_matches
strict_wraps_example =
    strict_wraps [] [] (codes "170141183460469231731") 170141183460469231731 (some (codes "9"))
      900_000_000_000_000_000 refl refl large-IsNumeral refl nine_tenths-IsFraction (omega arith)
      (omega arith) (omega arith)

lenient_of_strict_example : from_str_lenient (codes " 0.25") ≡ ok (units 250_000_000_000_000_000)
unfolding from_str_strict is_whitespace ◌*ℤ◌ ◌+ℤ◌
lenient_of_strict_example = lenient_of_strict (codes " 0.25") (units 250_000_000_000_000_000) refl

strict-to_exact_string_example :
    from_str_strict (to_exact_string (record { raw = negsuc 41 })) ≡ ok (record { raw = negsuc 41 })
strict-to_exact_string_example = strict-to_exact_string (record { raw = negsuc 41 }) (omega arith)

prec28_nearest_example :
    (places : ℕ) × (q : ℕ) × ((round_python_prec28 (units (10 ^ 38 - 1))).raw
      ≡ signed false (q * 10 ^ places))
    × IsNearestEven (10 ^ 38 - 1) (10 ^ places) q
    × (10 ^ 27 ≤ q)
    × (q ≤ 10 ^ 28)
unfolding significant_digits digit_loop as_tuple
prec28_nearest_example = prec28_nearest (units (10 ^ 38 - 1)) (omega arith) (omega arith)
