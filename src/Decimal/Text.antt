-- ===== src/Decimal/Text.antt =====
-- Decimals as text: the parsers and printers of crates/domain/src/decimal.rs. A text is the list of
-- its code points.
pub mod Scan
pub mod Format
pub mod Rounding
pub mod Lenient
pub mod Digits
pub mod Parts
pub mod Trimming
pub mod Strict
pub mod RoundTrip
mod Tests
use hype_edge.Common.{
  ℕ, ◌+◌, ◌-◌, Bool, true, false, Option, none, some, List, [], ◌∷◌, ◌++◌, ltb, leb, ◌==◌,
  if◌then◌else◌, length,
}
use hype_edge.Common.Result.{Result, ok, err, ◌>>=◌, ◌>>◌, guard}
use hype_edge.Common.Int.{ℤ, pos, ◌+ℤ◌}
use hype_edge.Decimal.{
  Decimal, DecimalError, invalid_format, too_many_significant_digits, too_many_fractional_digits,
  out_of_range, scale_i128, negate,
}
use hype_edge.Decimal.Machine.{checked_mul}
use hype_edge.Decimal.WideInteger.{wrap_i128}
use Scan.{
  CodePoints, is_zero_digit, is_empty, trim, trim_start_matches, trim_end_matches, repeat,
  parse_i128, strip_minus, regex_body_match,
}

abbrev pub max_significant_digits : ℕ
max_significant_digits = 38

-- `parse_decimal_string`: the sign, the integer part and the fraction.
unfoldable pub parse_decimal_string :
    CodePoints → Result DecimalError (Bool × CodePoints × Option CodePoints)
unfolding strip_minus regex_body_match trim
parse_decimal_string s =
    let trimmed = trim s in
    if is_empty trimmed
    then err invalid_format
    else (let body = strip_minus trimmed in
        elim (regex_body_match body.0) [
          | some parts ↦ ok (body.1, parts.0, parts.1)
          | none ↦ err invalid_format
        ])

abbrev pub or_out_of_range : Option ℤ → Result DecimalError ℤ
or_out_of_range (some v) = ok v
or_out_of_range none = err out_of_range

-- The significant digits of the fraction.
unfoldable pub fraction_significant : Option CodePoints → Result DecimalError ℕ
unfolding trim_end_matches
fraction_significant none = ok 0
fraction_significant (some frac) =
    if ltb 18 (length frac)
    then err too_many_fractional_digits
    else ok (length (trim_end_matches is_zero_digit frac))

-- The fraction filled up with zeros to 18 digits, as a number.
unfoldable pub fraction_raw : Option CodePoints → Result DecimalError ℤ
unfolding parse_i128 repeat
fraction_raw none = ok (pos 0)
fraction_raw (some frac) = or_out_of_range (parse_i128 (frac ++ repeat b'0' (18 - length frac)))

-- The integer part without its leading zeros.
unfoldable pub bare_int : CodePoints → CodePoints
unfolding trim_start_matches
bare_int int_part =
    let bare = trim_start_matches is_zero_digit int_part in
    if is_empty bare then b'0' ∷ [] else bare

-- The last sum is a plain `+`: past the i128 range it wraps.
unfoldable pub from_parts : CodePoints → Option CodePoints → Result DecimalError Decimal
unfolding fraction_significant fraction_raw bare_int parse_i128
from_parts int_part frac_part = do
  let int_digits = bare_int int_part
  frac_digits ← fraction_significant frac_part
  guard (leb (length int_digits + frac_digits) max_significant_digits) too_many_significant_digits
  int_value ← or_out_of_range (parse_i128 int_digits)
  int_raw ← or_out_of_range (checked_mul int_value scale_i128)
  frac_raw ← fraction_raw frac_part
  ok (record { raw = wrap_i128 (int_raw +ℤ frac_raw) })

abbrev pub with_sign : Bool → Decimal → Decimal
with_sign neg d = if neg then negate d else d

unfoldable pub from_str_strict : CodePoints → Result DecimalError Decimal
unfolding parse_decimal_string from_parts
from_str_strict s = do
  parsed ← parse_decimal_string s
  d ← from_parts parsed.1 parsed.2
  ok (with_sign parsed.0 d)
