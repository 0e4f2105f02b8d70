-- ===== src/Decimal/Text/Rounding/Length.antt =====
-- The number of digits: crates/domain/src/decimal.rs, `significant_digits`, and what it bounds.
use native.Mathlib.Nat.{pow-suc, pow-le-pow_right, le_trans}
use hype_edge.Common.{
  ℕ, zero, suc, ◌+◌, ◌-◌, ◌*◌, ◌/◌, ◌^◌, ◌≤◌, ◌<◌, ◌≡◌, refl, ap, ◌∙◌, inl, inr, arith, leb, ◌==◌,
  Bool-cases, leb→le,
}
use hype_edge.Decimal.Places.{pow10_add}
use hype_edge.Decimal.Text.Rounding.{significant_digits, digit_loop}
use hype_edge.Decimal.Text.Rounding.Halves.{IsNearestEven, scaled_le, at_least, at_most}

digit_loop-zero : (rounds : ℕ) → digit_loop rounds 0 ≡ 0
unfolding digit_loop
digit_loop-zero zero = refl
digit_loop-zero (suc rounds) = refl

digit_step :
    (rounds x n : ℕ) → 0 < x → digit_loop rounds (x / 10) ≡ n → digit_loop (suc rounds) x ≡ suc n
unfolding digit_loop
digit_step rounds x n h e = ground (arith, e)

-- A positive number has p + 1 digits for a p with 10^p at most the number.
digit_loop-bounds :
    (rounds x : ℕ)
    → 0 < x
    → x < 10 ^ rounds
    → (p : ℕ) × (digit_loop rounds x ≡ suc p) × (10 ^ p ≤ x) × (x < 10 ^ suc p)
digit_loop-bounds zero x h fits = absurd (omega arith)
digit_loop-bounds (suc rounds) x h fits = elim (Bool-cases ((x / 10) == 0)) [
  | inl last ↦
      let gone : x / 10 ≡ 0 = ground arith in
      (
        0,
        digit_step rounds x 0 h (ap (digit_loop rounds) gone ∙ digit_loop-zero rounds),
        h,
        omega arith,
      )
  | inr more ↦
      let (p, count, low, high) =
        digit_loop-bounds rounds (x / 10) (ground arith)
          (omega (arith, rw (pow-suc 10 rounds) at fits)) in
      (
        suc p,
        digit_step rounds x (suc p) h count,
        rw (pow-suc 10 p) (omega (arith, low)),
        rw (pow-suc 10 (suc p)) (omega (arith, high)),
      )
]

power_lt : (a b : ℕ) → 10 ^ a < 10 ^ b → a < b
power_lt a b h = elim (Bool-cases (leb b a)) [
  | inl e ↦
      absurd (omega (arith, pow-le-pow_right {n = 10} (omega arith) {i = b} {j = a} (leb→le b a e)))
  | inr e ↦ ground arith
]

pub positive_power : (n : ℕ) → 0 < 10 ^ n
positive_power n = pow-le-pow_right {n = 10} (omega arith) {i = 0} {j = n} (omega arith)

-- What is known of the digits of a coefficient c with its scale 10^k, of which p + 1 - 28 are dropped.
module _ (m c k p : ℕ) (value : m ≡ c * 10 ^ k) (fits : m < 10 ^ 38) (low : 10 ^ p ≤ c)
    (high : c < 10 ^ suc p) (long : 28 ≤ p) where
  pub digits_fit : p + k < 38
  digits_fit =
      let product : 10 ^ p * 10 ^ k ≤ c * 10 ^ k = scaled_le (10 ^ p) c (10 ^ k) low in
      let total : 10 ^ p * 10 ^ k ≡ 10 ^ (k + p) = pow10_add p k in
      omega (arith, power_lt (k + p) 38 (omega arith))

  pub unit_fits : 10 ^ (p - 27) * 10 ^ k ≤ m
  unit_fits =
      let small : 10 ^ (p - 27) ≤ c =
        le_trans (pow-le-pow_right {n = 10} (omega arith) {i = p - 27} {j = p} (omega arith)) low in
      omega (arith, scaled_le (10 ^ (p - 27)) c (10 ^ k) small)

  pub quotient_digits : (q : ℕ) → IsNearestEven c (10 ^ (p - 27)) q → (10 ^ 27 ≤ q) × (q ≤ 10 ^ 28)
  quotient_digits q near =
      let u = 10 ^ (p - 27) in
      let from_27 : p - 27 + 27 ≡ p = omega arith in
      let from_28 : p - 27 + 28 ≡ suc p = omega arith in
      let least : 10 ^ 27 * u ≤ c =
        rw (pow10_add 27 (p - 27) ∙ ap (λ (n : ℕ). 10 ^ n) from_27) low in
      let most : c < 10 ^ 28 * u =
        rw (pow10_add 28 (p - 27) ∙ ap (λ (n : ℕ). 10 ^ n) from_28) high in
      (
        at_least q u c (10 ^ 27) (positive_power (p - 27)) near.1 least,
        at_most q u c (10 ^ 28) near.0 most,
      )

grows : (c w : ℕ) → 0 < w → c ≤ c * w
grows c w h = grind arith

pub magnitude_digits :
    (c k m : ℕ)
    → m ≡ c * 10 ^ k
    → m < 10 ^ 38
    → 28 < significant_digits c
    → (p : ℕ) × (significant_digits c ≡ suc p) × (10 ^ p ≤ c) × (c < 10 ^ suc p)
unfolding significant_digits
magnitude_digits zero k m value fits long = absurd (omega (arith, digit_loop-zero 39))
magnitude_digits (suc c) k m value fits long =
    digit_loop-bounds 39 (suc c) (omega arith)
      (omega (arith, grows (suc c) (10 ^ k) (positive_power k)))
