-- ===== src/Decimal/Text/RoundTrip.antt =====
-- What `to_exact_string` prints is read back by `from_str_strict`: crates/domain/src/decimal.rs.
use mathlib.Core.List.{append-nil}
use native.Mathlib.Nat.{zero-add}
use hype_edge.Common.{
  ℕ, zero, suc, ◌+◌, ◌-◌, ◌*◌, ◌/◌, ◌%◌, ◌^◌, ◌≤◌, ◌<◌, ◌≡◌, refl, sym, ap, ◌∙◌, Bool, true, false,
  Option, none, some, [], ◌∷◌, ◌++◌, arith, ◌==◌, if◌then◌else◌, length, all,
}
use hype_edge.Common.Result.{ok}
use hype_edge.Common.Int.{ℤ, pos, negsuc, signed, magnitude, is_neg, eq_ℤ, ltb_ℤ}
use hype_edge.Decimal.{Decimal, scale_unit}
use hype_edge.Decimal.Text.Scan.{
  CodePoints, is_zero_digit, is_ascii_digit, is_empty, is_fraction, trim_end_matches, keep_before,
  repeat, parse_digits,
}
use hype_edge.Decimal.Text.Format.{
  padded, print_u128, fraction_text, print_magnitude, to_exact_string, sign_text,
}
use hype_edge.Decimal.Text.Digits.{
  IsNumeral, all-padded, length-padded, parse_digits-padded, trimmed-IsNumeral,
  length-trim_start-padded,
}
use hype_edge.Decimal.Text.Parts.{IsFraction, FractionIs, significant, trim_end-repeat}
use hype_edge.Decimal.Text.Strict.{HasDigits, numeral_text, point_text, strict_exact}
use hype_edge.Decimal.Text.{from_str_strict}

-- A printed number is a numeral for it.
pub print_u128-IsNumeral : (n : ℕ) → n < 10 ^ 39 → IsNumeral (print_u128 n) n
unfolding print_u128
print_u128-IsNumeral n h =
    trimmed-IsNumeral (padded 39 n) n (all-padded 39 n)
      (parse_digits-padded 39 n 0 h ∙ ap some (zero-add n))

bare-length :
    (t : CodePoints) (j : ℕ)
    → length t ≤ suc j
    → length (if is_empty t then b'0' ∷ [] else t) ≤ suc j
bare-length [] j h = omega arith
bare-length (c ∷ t) j h = h

print_u128-length : (j n : ℕ) → n < 10 ^ suc j → length (print_u128 n) ≤ suc j
unfolding print_u128
print_u128-length j n h = bare-length _ j (length-trim_start-padded 39 (suc j) n h)

length-trim_end : (s : CodePoints) → length (trim_end_matches is_zero_digit s) ≤ length s
length-trim_end s = (trim_end-repeat s).1

all-trim_end :
    (p : ℕ → Bool) (s : CodePoints)
    → all p s ≡ true
    → all p (trim_end_matches is_zero_digit s) ≡ true
unfolding trim_end_matches
all-trim_end p [] h = refl
all-trim_end p (c ∷ s) h =
    kept c (trim_end_matches is_zero_digit s) (ground arith) (all-trim_end p s (ground arith))
  where
    kept :
        (c : ℕ) (t : CodePoints)
        → p c ≡ true
        → all p t ≡ true
        → all p (keep_before is_zero_digit c t) ≡ true
    kept c [] hc ht = ground arith
    kept c (d ∷ t) hc ht = ground arith

kept-IsFraction :
    (t : CodePoints) (n : ℕ)
    → 0 < n
    → n < scale_unit
    → length t ≤ 18
    → all is_ascii_digit t ≡ true
    → parse_digits 0 (t ++ repeat b'0' (18 - length t)) ≡ some n
    → let shown = if is_empty t then b'0' ∷ [] else t in
      IsFraction shown n × (is_fraction shown ≡ true)
unfolding repeat parse_digits
kept-IsFraction [] n positive small short digits worth = absurd (ground (arith, worth))
kept-IsFraction (c ∷ t) n positive small short digits worth =
    (record { short = short; digits = digits; worth = worth; below = small }, digits)

-- The printed fraction stands for the number of units.
fraction_text-IsFraction :
    (n : ℕ)
    → 0 < n
    → n < scale_unit
    → IsFraction (fraction_text n) n × (is_fraction (fraction_text n) ≡ true)
unfolding fraction_text
fraction_text-IsFraction n positive small =
    let filled = trim_end-repeat (padded 18 n) in
    let t = trim_end_matches is_zero_digit (padded 18 n) in
    let whole : t ++ repeat b'0' (18 - length t) ≡ padded 18 n =
      rw (length-padded 18 n) at (filled.0) in
    kept-IsFraction t n positive small (omega (arith, filled.1, length-padded 18 n))
      (all-trim_end is_ascii_digit (padded 18 n) (all-padded 18 n))
      (rw whole (parse_digits-padded 18 n 0 small ∙ ap some (zero-add n)))

-- What is printed after the sign is a numeral with an optional fraction.
magnitude_text : ℕ → Option CodePoints
magnitude_text abs =
    if (abs % scale_unit) == 0 then none else some (fraction_text (abs % scale_unit))

pointed :
    (whole : Bool) (int frac : CodePoints)
    → (if whole then int else int ++ b'.' ∷ frac)
      ≡ int ++ point_text (if whole then none else some frac)
pointed true int frac = sym (append-nil int)
pointed false int frac = refl

print_magnitude-eq :
    (abs : ℕ)
    → print_magnitude abs ≡ print_u128 (abs / scale_unit) ++ point_text (magnitude_text abs)
unfolding print_magnitude magnitude_text
print_magnitude-eq abs =
    pointed ((abs % scale_unit) == 0) (print_u128 (abs / scale_unit))
      (fraction_text (abs % scale_unit))

text_fraction :
    (n : ℕ)
    → n < scale_unit
    → (whole : Bool) → (n == 0) ≡ whole
    → let frac = if whole then none else some (fraction_text n) in
      HasDigits frac × FractionIs frac n × (significant frac ≤ 18)
unfolding significant
text_fraction n small true h = (tt, ground arith, omega arith)
text_fraction n small false h =
    let fraction = fraction_text-IsFraction n (ground arith) small in
    (fraction.1, fraction.0, omega (arith, length-trim_end (fraction_text n), fraction.0.short))

magnitude_text-fraction :
    (abs : ℕ)
    → HasDigits (magnitude_text abs)
      × FractionIs (magnitude_text abs) (abs % scale_unit)
      × (significant (magnitude_text abs) ≤ 18)
unfolding magnitude_text
magnitude_text-fraction abs =
    text_fraction (abs % scale_unit) (omega arith) ((abs % scale_unit) == 0) refl

read_back :
    (neg : Bool) (abs : ℕ)
    → abs < 10 ^ 38
    → from_str_strict (sign_text neg ++ print_magnitude abs) ≡ ok (record { raw = signed neg abs })
read_back neg abs h =
    let int = abs / scale_unit in
    let fraction = magnitude_text-fraction abs in
    let numeral = print_u128-IsNumeral int (omega arith) in
    let count : length (print_u128 int) + significant (magnitude_text abs) ≤ 38 =
      omega (arith, print_u128-length 19 int (omega arith), fraction.2) in
    let parts : int * scale_unit + abs % scale_unit ≡ abs = omega arith in
    let read =
      strict_exact [] [] neg (print_u128 int) int (magnitude_text abs) (abs % scale_unit) refl refl
        numeral fraction.0 fraction.1 count (omega arith) in
    rw
      (
        print_magnitude-eq abs,
        ← append-nil (numeral_text neg (print_u128 int) (magnitude_text abs)),
      )
      (read ∙ ap (λ n. ok (record { raw = signed neg n })) parts)

zero_text : sign_text false ++ print_magnitude 0 ≡ b'0' ∷ []
unfolding print_magnitude padded
zero_text = refl

positive_tests :
    (n : ℕ) → (eq_ℤ (pos (suc n)) (pos 0) ≡ false) × (ltb_ℤ (pos (suc n)) (pos 0) ≡ false)
positive_tests n = ground arith

negative_tests : (n : ℕ) → (eq_ℤ (negsuc n) (pos 0) ≡ false) × (ltb_ℤ (negsuc n) (pos 0) ≡ true)
negative_tests n = ground arith

pub exact_text :
    (raw : ℤ)
    → to_exact_string (record { raw = raw })
      ≡ sign_text (is_neg raw) ++ print_magnitude (magnitude raw)
unfolding to_exact_string
exact_text (pos zero) = sym zero_text
exact_text (pos (suc n)) = rw ((positive_tests n).0, (positive_tests n).1) refl
exact_text (negsuc n) = rw ((negative_tests n).0, (negative_tests n).1) refl

signed-magnitude : (raw : ℤ) → signed (is_neg raw) (magnitude raw) ≡ raw
signed-magnitude raw = ground arith

-- For a decimal whose raw value has a magnitude below 10^38, the strict parser reads what
-- `to_exact_string` prints back as the same decimal.
pub strict-to_exact_string :
    (d : Decimal) → magnitude d.raw < 10 ^ 38 → from_str_strict (to_exact_string d) ≡ ok d
strict-to_exact_string d h = rw (exact_text d.raw) (
    read_back (is_neg d.raw) (magnitude d.raw) h
    ∙ ap (λ raw. ok (record { raw = raw })) (signed-magnitude d.raw))
