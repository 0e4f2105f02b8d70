-- ===== src/Decimal/Text/Rounding/Nearest.antt =====
-- Rounding to 28 significant digits: crates/domain/src/decimal.rs, `round_python_prec28`.
use native.Mathlib.Nat.{pow-suc}
use hype_edge.Common.{
  ℕ, zero, suc, ◌+◌, ◌-◌, ◌*◌, ◌^◌, ◌≤◌, ◌<◌, ◌≡◌, refl, sym, ap, ◌∙◌, Bool, false, arith, leb,
  if◌then◌else◌,
}
use hype_edge.Common.Int.{
  ℤ, pos, negsuc, ◌+ℤ◌, ◌*ℤ◌, signed, is_neg, magnitude, neg_part, pos_part, eq_ℤ,
}
use hype_edge.Decimal.{Decimal, as_tuple, pow10, is_negative}
use hype_edge.Decimal.Places.{pow10_lem, pow10_add, signed_sign, signed-*ℤ}
use hype_edge.Decimal.Quotients.{ltb_zero}
use hype_edge.Decimal.WideInteger.{wrap_i128}
use hype_edge.Decimal.Text.Rounding.{
  half_even, significant_digits, rebuild, round_significant_half_even, round_python_prec28,
}
use hype_edge.Decimal.Text.Rounding.Stripped.{as_tuple-Stripped}
use hype_edge.Decimal.Text.Rounding.Halves.{
  IsNearestEven, half_even-IsNearestEven, IsNearestEven-scaled,
}
use hype_edge.Decimal.Text.Rounding.Length.{
  positive_power, magnitude_digits, digits_fit, unit_fits, quotient_digits,
}

exponent_after :
    (e : ℤ) (n drop : ℕ)
    → pos_part e ≡ 0
    → neg_part e ≡ n
    → drop < n
    → e +ℤ pos drop ≡ negsuc (n - drop - 1)
unfolding ◌+ℤ◌
exponent_after e n drop z h k = ground arith

wrap-signed : (s : Bool) (n : ℕ) → n < 2 ^ 127 → wrap_i128 (signed s n) ≡ signed s n
wrap-signed s n h = ground arith

rebuild-eq :
    (q n places : ℕ) (s : Bool)
    → 18 - suc n ≡ places
    → q * 10 ^ places < 2 ^ 127
    → rebuild q (negsuc n) (if s then negsuc 0 else pos 1) ≡ signed s (q * 10 ^ places)
unfolding rebuild
rebuild-eq q n places s e h =
    ap wrap_i128 (
      ap (λ a. a *ℤ pos (pow10 (18 - suc n))) (signed_sign s q)
      ∙ ap (λ u. signed s q *ℤ pos u) (pow10_lem (18 - suc n) ∙ ap (λ (j : ℕ). 10 ^ j) e)
      ∙ signed-*ℤ s q (10 ^ places))
    ∙ wrap-signed s (q * 10 ^ places) h

negative_lem : (d : Decimal) → is_negative d ≡ is_neg d.raw
unfolding is_negative
negative_lem d = ltb_zero d.raw

-- The branch that rounds.
round-eq :
    (d : Decimal) (drop : ℕ)
    → eq_ℤ d.raw (pos 0) ≡ false
    → leb (significant_digits (magnitude (as_tuple d).0)) 28 ≡ false
    → significant_digits (magnitude (as_tuple d).0) - 28 ≡ drop
    → (round_python_prec28 d).raw
      ≡ rebuild
          (half_even (magnitude (as_tuple d).0) (10 ^ drop))
          ((as_tuple d).1 +ℤ pos drop)
          (if is_neg d.raw then negsuc 0 else pos 1)
unfolding round_python_prec28 round_significant_half_even
round-eq d drop nonzero long e = rw (nonzero, long, e, pow10_lem drop, negative_lem d) refl

nonzero_raw : (a : ℤ) → 0 < magnitude a → eq_ℤ a (pos 0) ≡ false
nonzero_raw a h = ground arith

long_digits : (n p : ℕ) → n ≡ suc p → 28 ≤ p → (leb n 28 ≡ false) × (n - 28 ≡ p - 27)
long_digits n p e h = ground arith

half_power : (n : ℕ) → 0 < n → 10 ^ n ≡ 2 * (5 * 10 ^ (n - 1))
half_power zero h = absurd (omega arith)
half_power (suc n) h =
    let before : suc n - 1 ≡ n = omega arith in rw (pow-suc 10 n, before) (omega arith)

-- For a decimal whose raw value has a magnitude below 10^38 and whose coefficient has more than
-- 28 significant digits, rounding as Python does gives q × 10^n with the sign of the decimal,
-- for a q from 10^27 to 10^28 and some n, which is at most half of 10^n away from the raw value,
-- and q is even at a tie.
pub prec28_nearest :
    (d : Decimal)
    → magnitude d.raw < 10 ^ 38
    → 28 < significant_digits (magnitude (as_tuple d).0)
    → (places : ℕ) × (q : ℕ) × ((round_python_prec28 d).raw
        ≡ signed (is_neg d.raw) (q * 10 ^ places))
      × IsNearestEven (magnitude d.raw) (10 ^ places) q
      × (10 ^ 27 ≤ q)
      × (q ≤ 10 ^ 28)
prec28_nearest d fits long =
    let (k, total, sign, value) = as_tuple-Stripped d in
    let m = magnitude d.raw in
    let c = magnitude (as_tuple d).0 in
    let (p, count, low, high) = magnitude_digits c k m value fits long in
    let long_p : 28 ≤ p = omega (arith, count) in
    let digits = long_digits (significant_digits c) p count long_p in
    let drop = p - 27 in
    let q = half_even c (10 ^ drop) in
    let unit = half_power drop (omega arith) in
    let near =
      half_even-IsNearestEven c (10 ^ drop) (5 * 10 ^ (drop - 1))
        (omega (arith, positive_power (drop - 1))) unit in
    let room = digits_fit m c k p value fits low high long_p in
    let exponent =
      exponent_after (as_tuple d).1 (18 - k) drop sign (omega arith) (omega (arith, room)) in
    let power : 10 ^ drop * 10 ^ k ≡ 10 ^ (k + drop) = pow10_add drop k in
    let scaled =
      rw (sym value, power) at
        (IsNearestEven-scaled c (10 ^ drop) q (10 ^ k) (positive_power k) near) in
    let small = rw power at (unit_fits m c k p value fits low high long_p) in
    let spread = quotient_digits m c k p value fits low high long_p q near in
    let places_eq : 18 - suc (18 - k - drop - 1) ≡ k + drop = omega (arith, room) in
    let positive_m : 0 < m = omega (arith, small, positive_power (k + drop)) in
    (
      k + drop,
      q,
      round-eq d drop (nonzero_raw d.raw positive_m) digits.0 digits.1
          ∙ ap (λ e. rebuild q e (if is_neg d.raw then negsuc 0 else pos 1)) exponent
          ∙ rebuild-eq q (18 - k - drop - 1) (k + drop) (is_neg d.raw) places_eq
              (omega (arith, scaled.0, small)),
      scaled,
      spread.0,
      spread.1,
    )
