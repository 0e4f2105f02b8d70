-- ===== src/Decimal/Text/Lenient.antt =====
-- The lenient parser of crates/domain/src/decimal.rs: `from_str_lenient`, `parse_lenient_decimal`
-- and `apply_exponent`.
mod Fractions
pub mod Agreement
use hype_edge.Common.{
  ℕ, zero, suc, ◌+◌, Bool, true, false, not, ◌||◌, Option, none, some, [], ◌∷◌, ◌++◌, ltb, ◌==◌,
  if◌then◌else◌,
}
use hype_edge.Common.Result.{Result, ok, err, ◌>>=◌, ◌>>◌, guard}
use hype_edge.Common.Int.{ℤ, pos, negsuc, magnitude}
use hype_edge.Decimal.{Decimal, DecimalError, invalid_format, out_of_range}
use hype_edge.Decimal.Text.Scan.{
  CodePoints, is_zero_digit, is_ascii_digit, is_empty, trim, trim_end_matches, split_once,
  parse_i32, strip_minus,
}
use hype_edge.Decimal.Text.{from_parts, bare_int, with_sign}

abbrev pub max_lenient_exponent : ℕ
max_lenient_exponent = 40

abbrev pub is_exponent_mark : ℕ → Bool
is_exponent_mark c = (c == b'e') || (c == b'E')

abbrev pub is_point : ℕ → Bool
is_point c = c == b'.'

-- Without a leading `+`, where there is no `-`.
unfoldable pub strip_plus : CodePoints × Bool → CodePoints × Bool
strip_plus ([], neg) = ([], neg)
strip_plus (c ∷ s, true) = (c ∷ s, true)
strip_plus (c ∷ s, false) = if c == b'+' then (s, false) else (c ∷ s, false)

-- What stands after the exponent mark, if there is one.
unfoldable pub parse_exponent : Option CodePoints → Result DecimalError ℤ
unfolding parse_i32
parse_exponent none = ok (pos 0)
parse_exponent (some exp_str) = elim (parse_i32 exp_str) [
  | some exp ↦ if ltb max_lenient_exponent (magnitude exp) then err out_of_range else ok exp
  | none ↦ err invalid_format
]

-- The loop that validates the mantissa: digits and at most one point.
unfoldable pub is_mantissa : Bool → CodePoints → Bool
is_mantissa seen_dot [] = true
is_mantissa seen_dot (c ∷ s) =
    let rest = is_mantissa (seen_dot || is_point c) s in
    if is_point c
    then (if seen_dot then false else rest)
    else if is_ascii_digit c
    then rest
    else false

-- The sign, the mantissa and the exponent.
unfoldable pub parse_lenient_decimal : CodePoints → Result DecimalError (Bool × CodePoints × ℤ)
unfolding trim strip_minus strip_plus split_once parse_exponent is_mantissa
parse_lenient_decimal s = do
  let unsigned = strip_plus (strip_minus (trim s))
  let halves = split_once is_exponent_mark unsigned.0
  exp ← parse_exponent halves.1
  guard (not (is_empty halves.0)) invalid_format
  guard (is_mantissa false halves.0) invalid_format
  ok (unsigned.1, halves.0, exp)

-- The rounds of `for _ in 0..exp`: the point moves right.
unfoldable pub shift_right : ℕ → CodePoints → CodePoints → CodePoints × CodePoints
shift_right zero int frac = (int, frac)
shift_right (suc rounds) int [] = shift_right rounds (int ++ b'0' ∷ []) []
shift_right (suc rounds) int (digit ∷ frac) = shift_right rounds (int ++ digit ∷ []) frac

-- `String::pop`: what stands before the last character, and that character.
unfoldable pub pop : CodePoints → Option (CodePoints × ℕ)
pop [] = none
pop (c ∷ s) = elim (pop s) [ some front ↦ some (c ∷ front.0, front.1) | none ↦ some ([], c) ]

-- The rounds of `for _ in 0..(-exp)`: the point moves left.
unfoldable pub shift_left : ℕ → CodePoints → CodePoints → CodePoints × CodePoints
unfolding pop
shift_left zero int frac = (int, frac)
shift_left (suc rounds) int frac = elim (pop int) [
  | some front ↦ shift_left rounds front.0 (front.1 ∷ frac)
  | none ↦ shift_left rounds [] (b'0' ∷ frac)
]

abbrev pub fraction_or_empty : Option CodePoints → CodePoints
fraction_or_empty none = []
fraction_or_empty (some frac) = frac

abbrev pub zero_if_empty : CodePoints → CodePoints
zero_if_empty [] = b'0' ∷ []
zero_if_empty (c ∷ s) = c ∷ s

-- By the sign of the exponent.
unfoldable pub shift_point : ℤ → CodePoints → CodePoints → CodePoints × CodePoints
unfolding shift_right shift_left
shift_point (pos exp) int frac = shift_right exp int frac
shift_point (negsuc n) int frac =
    let shifted = shift_left (suc n) int frac in (zero_if_empty shifted.0, shifted.1)

-- It never fails.
unfoldable pub apply_exponent : CodePoints → ℤ → Result DecimalError (CodePoints × CodePoints)
unfolding split_once bare_int trim_end_matches shift_point
apply_exponent mantissa exp =
    let parts = split_once is_point mantissa in
    ok (
      shift_point exp (bare_int parts.0)
        (trim_end_matches is_zero_digit (fraction_or_empty parts.1)))

unfoldable pub take : ℕ → CodePoints → CodePoints
take zero s = []
take (suc n) [] = []
take (suc n) (c ∷ s) = c ∷ take n s

-- The digits of a fraction that are kept: none, or the first 18.
unfoldable pub kept_fraction_part : CodePoints → Option CodePoints
unfolding take
kept_fraction_part frac = if is_empty frac then none else some (take 18 frac)

unfoldable pub from_str_lenient : CodePoints → Result DecimalError Decimal
unfolding parse_lenient_decimal apply_exponent kept_fraction_part from_parts
from_str_lenient s = do
  parsed ← parse_lenient_decimal (trim s)
  shifted ← apply_exponent parsed.1 parsed.2
  d ← from_parts shifted.0 (kept_fraction_part shifted.1)
  ok (with_sign parsed.0 d)
