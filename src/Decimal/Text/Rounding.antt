-- ===== src/Decimal/Text/Rounding.antt =====
-- Rounding to significant digits and the `Display` printer: crates/domain/src/decimal.rs,
-- `round_significant_half_even`, `round_python_prec28`, `raw_for_display` and `fmt`.
mod Stripped
pub mod Halves
mod Length
pub mod Nearest
use hype_edge.Common.{
  ℕ, zero, suc, ◌+◌, ◌-◌, ◌/◌, ◌%◌, true, false, ◌||◌, [], ◌∷◌, ◌++◌, leb, ltb, ◌==◌, if◌then◌else◌,
}
use hype_edge.Common.Int.{ℤ, pos, negsuc, ◌+ℤ◌, ◌*ℤ◌, magnitude, ltb_ℤ, eq_ℤ}
use hype_edge.Decimal.{Decimal, as_tuple, pow10, is_negative}
use hype_edge.Decimal.WideInteger.{wrap_i128}
use hype_edge.Decimal.Text.Scan.{CodePoints}
use hype_edge.Decimal.Text.Format.{print_magnitude, sign_text}

-- The loop `while x > 0`, by the rounds that a u128 can take.
unfoldable pub digit_loop : ℕ → ℕ → ℕ
digit_loop zero x = 0
digit_loop (suc rounds) x = let rest = digit_loop rounds (x / 10) in if x == 0 then 0 else suc rest

unfoldable pub significant_digits : ℕ → ℕ
significant_digits v = digit_loop 39 v

-- The quotient, rounded to the nearest, ties to even.
unfoldable pub half_even : ℕ → ℕ → ℕ
half_even coeff unit =
    let q = coeff / unit in
    let rem = coeff % unit in
    let halfway = unit / 2 in
    let round_up =
      if ltb halfway rem then true else (if ltb rem halfway then false else ((q % 2) == 1)) in
    if round_up then q + 1 else q

-- rounded × 10^exp with a sign, at scale 18; for an exponent that is not negative the code does not
-- scale by 10^18.
unfoldable pub rebuild : ℕ → ℤ → ℤ → ℤ
rebuild rounded (pos e) sign = wrap_i128 (pos rounded *ℤ pos (pow10 e) *ℤ sign)
rebuild rounded (negsuc n) sign = wrap_i128 (pos rounded *ℤ sign *ℤ pos (pow10 (18 - suc n)))

unfoldable pub round_significant_half_even : Decimal → ℕ → Decimal
round_significant_half_even d prec =
    if eq_ℤ d.raw (pos 0) || (prec == 0)
    then d
    else (let tuple = as_tuple d in
        let coeff = magnitude tuple.0 in
        let digits = significant_digits coeff in
        if leb digits prec
        then d
        else (let drop = digits - prec in
            let rounded = half_even coeff (pow10 drop) in
            let sign = if is_negative d then negsuc 0 else pos 1 in
            record { raw = rebuild rounded (tuple.1 +ℤ pos drop) sign }))

unfoldable pub round_python_prec28 : Decimal → Decimal
round_python_prec28 d = round_significant_half_even d 28

unfoldable pub raw_for_display : Decimal → ℤ
raw_for_display d =
    if leb (significant_digits (magnitude (as_tuple d).0)) 28
    then d.raw
    else (round_significant_half_even d 28).raw

-- `Display`.
unfoldable pub to_string : Decimal → CodePoints
to_string d =
    if eq_ℤ d.raw (pos 0)
    then b'0' ∷ []
    else (let raw = raw_for_display d in
        sign_text (ltb_ℤ raw (pos 0)) ++ print_magnitude (magnitude raw))
