-- ===== src/Decimal/Text/Parts.antt =====
-- Digits assembled to a raw value: crates/domain/src/decimal.rs, `from_parts`.
use hype_edge.Common.{
  ℕ, zero, suc, ◌+◌, ◌-◌, ◌*◌, ◌^◌, ◌≤◌, ◌<◌, ◌≡◌, refl, ap, ◌≢◌, true, Option, none, some, [], ◌∷◌,
  ◌++◌, arith, leb, length, all,
}
use hype_edge.Common.Result.{ok}
use hype_edge.Common.Int.{pos, ◌*ℤ◌, pos-+ℤ}
use hype_edge.Decimal.{scale_i128, scale_unit}
use hype_edge.Decimal.Machine.{checked_mul}
use hype_edge.Decimal.WideInteger.{wrap_i128}
use hype_edge.Decimal.Text.Scan.{
  CodePoints, is_zero_digit, is_ascii_digit, trim_end_matches, keep_before, repeat, parse_digits,
  parse_i128,
}
use hype_edge.Decimal.Text.Digits.{all-append, trimmed-IsNumeral}
use hype_edge.Decimal.Text.{
  from_parts, fraction_significant, fraction_raw, bare_int, max_significant_digits,
}

-- A trimmed fraction filled up with zeros is the fraction.
pub trim_end-repeat :
    (s : CodePoints)
    → let t = trim_end_matches is_zero_digit s in
      (t ++ repeat b'0' (length s - length t) ≡ s) × (length t ≤ length s)
unfolding trim_end_matches repeat
trim_end-repeat [] = ground arith
trim_end-repeat (c ∷ s) = refill c s (trim_end_matches is_zero_digit s) (trim_end-repeat s)
  where
    refill :
        (c : ℕ) (s t : CodePoints)
        → (t ++ repeat b'0' (length s - length t) ≡ s) × (length t ≤ length s)
        → let u = keep_before is_zero_digit c t in
          (u ++ repeat b'0' (suc (length s) - length u) ≡ c ∷ s) × (length u ≤ suc (length s))
    refill c s [] h = ground (arith, h)
    refill c s (d ∷ t) h = ground (arith, h)

parse_i128-digits :
    (s : CodePoints) (n : ℕ)
    → all is_ascii_digit s ≡ true
    → s ≢ []
    → parse_digits 0 s ≡ some n
    → n < 2 ^ 127
    → parse_i128 s ≡ some (pos n)
unfolding parse_i128
parse_i128-digits [] n digits shape value h = absurd (shape refl)
parse_i128-digits (c ∷ s) n digits shape value h = ground (arith, value)

-- What a fraction stands for: at most 18 digits, worth `value` units of 10^-18.
pub record IsFraction (frac : CodePoints) (value : ℕ) : Type 0 where
  pub short : length frac ≤ 18
  pub digits : all is_ascii_digit frac ≡ true
  pub worth : parse_digits 0 (frac ++ repeat b'0' (18 - length frac)) ≡ some value
  pub below : value < scale_unit

abbrev pub FractionIs : Option CodePoints → ℕ → Type 0
FractionIs none value = value ≡ 0
FractionIs (some frac) value = IsFraction frac value

all-repeat : (n : ℕ) → all is_ascii_digit (repeat b'0' n) ≡ true
unfolding repeat
all-repeat zero = refl
all-repeat (suc n) = all-repeat n

length-repeat : (n : ℕ) → length (repeat b'0' n) ≡ n
unfolding repeat
length-repeat zero = refl
length-repeat (suc n) = ap suc (length-repeat n)

filled-ne-nil : (frac : CodePoints) → frac ++ repeat b'0' (18 - length frac) ≢ []
unfolding repeat
filled-ne-nil [] h = cc
filled-ne-nil (c ∷ frac) h = cc

fraction_raw-eq :
    (f : Option CodePoints) (value : ℕ) → FractionIs f value → fraction_raw f ≡ ok (pos value)
unfolding fraction_raw
fraction_raw-eq none value h = ground arith
fraction_raw-eq (some frac) value h =
    let whole = parse_i128-digits (frac ++ repeat b'0' (18 - length frac)) value in
    rw
      (whole (all-append is_ascii_digit frac _ h.digits (all-repeat (18 - length frac)))
        (filled-ne-nil frac) h.worth (omega (arith, h.below)))
      refl

unfoldable pub significant : Option CodePoints → ℕ
significant none = 0
significant (some frac) = length (trim_end_matches is_zero_digit frac)

fraction_significant-eq :
    (f : Option CodePoints) (value : ℕ)
    → FractionIs f value
    → fraction_significant f ≡ ok (significant f)
unfolding fraction_significant significant
fraction_significant-eq none value h = refl
fraction_significant-eq (some frac) value h = ground (arith, h.short)

within : (n : ℕ) → n ≤ 38 → leb n max_significant_digits ≡ true
within n h = ground arith

scaled :
    (int : ℕ)
    → int * scale_unit < 2 ^ 127
    → checked_mul (pos int) scale_i128 ≡ some (pos (int * scale_unit))
unfolding ◌*ℤ◌
scaled int h = ground arith

-- The assembled value.
pub from_parts-eq :
    (int frac_value : ℕ) (int_part : CodePoints) (frac : Option CodePoints)
    → all is_ascii_digit int_part ≡ true
    → parse_digits 0 int_part ≡ some int
    → FractionIs frac frac_value
    → length (bare_int int_part) + significant frac ≤ 38
    → int * scale_unit < 2 ^ 127
    → from_parts int_part frac
      ≡ ok (record { raw = wrap_i128 (pos (int * scale_unit + frac_value)) })
unfolding from_parts
from_parts-eq int frac_value int_part frac digits value fraction count small =
    let numeral = trimmed-IsNumeral int_part int digits value in
    rw
      (
        fraction_significant-eq frac frac_value fraction,
        parse_i128-digits (bare_int int_part) int numeral.digits numeral.shape numeral.value
            (omega (arith, small)),
        within (length (bare_int int_part) + significant frac) count,
        scaled int small,
        fraction_raw-eq frac frac_value fraction,
        pos-+ℤ (int * scale_unit) frac_value,
      )
      refl
