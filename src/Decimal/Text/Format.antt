-- ===== src/Decimal/Text/Format.antt =====
-- Decimals printed: crates/domain/src/decimal.rs, `to_exact_string`.
use hype_edge.Common.{ℕ, zero, suc, ◌+◌, ◌/◌, ◌%◌, Bool, [], ◌∷◌, ◌++◌, ◌==◌, if◌then◌else◌}
use hype_edge.Common.Int.{magnitude, pos, ltb_ℤ, eq_ℤ}
use hype_edge.Decimal.{Decimal, scale_unit}
use hype_edge.Decimal.Text.Scan.{
  CodePoints, is_zero_digit, is_empty, trim_start_matches, trim_end_matches,
}

-- The last `width` digits of a number, as `{n:0width}` prints a number that has no more.
unfoldable pub padded : ℕ → ℕ → CodePoints
padded zero n = []
padded (suc width) n = padded width (n / 10) ++ (b'0' + n % 10) ∷ []

-- A u128 as `{n}` prints it: it has at most 39 digits.
unfoldable pub print_u128 : ℕ → CodePoints
unfolding padded trim_start_matches
print_u128 n =
    let digits = trim_start_matches is_zero_digit (padded 39 n) in
    if is_empty digits then b'0' ∷ [] else digits

abbrev pub sign_text : Bool → CodePoints
sign_text neg = if neg then b'-' ∷ [] else []

unfoldable pub fraction_text : ℕ → CodePoints
unfolding padded trim_end_matches
fraction_text frac =
    let trimmed = trim_end_matches is_zero_digit (padded 18 frac) in
    if is_empty trimmed then b'0' ∷ [] else trimmed

-- What both printers do with a raw value other than zero.
unfoldable pub print_magnitude : ℕ → CodePoints
unfolding print_u128 fraction_text
print_magnitude abs =
    let int = abs / scale_unit in
    let frac = abs % scale_unit in
    if frac == 0 then print_u128 int else print_u128 int ++ b'.' ∷ fraction_text frac

unfoldable pub to_exact_string : Decimal → CodePoints
unfolding print_magnitude
to_exact_string d =
    if eq_ℤ d.raw (pos 0)
    then b'0' ∷ []
    else sign_text (ltb_ℤ d.raw (pos 0)) ++ print_magnitude (magnitude d.raw)
