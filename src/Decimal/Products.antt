-- ===== src/Decimal/Products.antt =====
-- Products of decimals: crates/domain/src/decimal.rs, `mul`, rounded half away from zero.
use native.Mathlib.Nat.{mul-le-mul}
use hype_edge.Common.{
  ℕ, ◌+◌, ◌*◌, ◌/◌, ◌^◌, ◌<◌, ◌≤◌, ◌≡◌, refl, sym, ap, ◌∙◌, Bool, true, false, arith, if◌then◌else◌,
}
use hype_edge.Common.Int.{
  ℤ, pos, negsuc, pos_part, neg_part, ◌+ℤ◌, ◌*ℤ◌, ◌/ℤ◌, neg, magnitude, is_neg, signed, differ,
  *ℤ_comm,
}
use hype_edge.Decimal.{Decimal, mul, scale_unit, scale_i128}
use hype_edge.Decimal.WideInteger.{Wide, InI128, InI256}
use hype_edge.Decimal.Machine.{saturate}
use hype_edge.Decimal.Reads.{reads-add, reads-mul, reads-div}
use hype_edge.Decimal.Narrowing.{signed_to_i128-eq-saturate}

-- The integer nearest to `a / 10^18`, halves away from zero.
abbrev pub round_unit : ℤ → ℤ
round_unit a = signed (is_neg a) ((magnitude a + 500_000_000_000_000_000) / scale_unit)

abbrev half_toward : Bool → ℤ
half_toward negative =
    if negative then neg (pos 500_000_000_000_000_000) else pos 500_000_000_000_000_000

half_away : (a : ℤ) → (a +ℤ half_toward (is_neg a)) /ℤ scale_i128 ≡ round_unit a
unfolding ◌+ℤ◌ ◌/ℤ◌ neg
half_away (pos n) = ground arith
half_away (negsuc n) = ground arith

pub magnitude_range : (a : ℤ) → InI128 a → magnitude a ≤ 2 ^ 127
magnitude_range (pos a) h = omega arith
magnitude_range (negsuc a) h = omega arith

magnitude_bounds : (n : ℤ) (m : ℕ) → magnitude n ≤ m → (pos_part n ≤ m) × (neg_part n ≤ m)
magnitude_bounds (pos a) m h = omega arith
magnitude_bounds (negsuc a) m h = omega arith

pub magnitude-signed : (s : Bool) (m : ℕ) → magnitude (signed s m) ≡ m
magnitude-signed s m = ground arith

pub magnitude-* : (a b : ℤ) → magnitude (a *ℤ b) ≡ magnitude a * magnitude b
unfolding ◌*ℤ◌
magnitude-* a b = magnitude-signed (differ (is_neg a) (is_neg b)) (magnitude a * magnitude b)

pub product_range :
    (a b : ℤ) → InI128 a → InI128 b → (pos_part (a *ℤ b) ≤ 2 ^ 254) × (neg_part (a *ℤ b) ≤ 2 ^ 254)
product_range a b h k =
    magnitude_bounds (a *ℤ b) (2 ^ 254)
      (omega (arith, magnitude-* a b, mul-le-mul (magnitude_range a h) (magnitude_range b k)))

half_range : (s : Bool) → InI128 (half_toward s)
unfolding neg
half_range true = omega arith
half_range false = omega arith

sum_range :
    (a : ℤ) (s : Bool) → pos_part a ≤ 2 ^ 254 → neg_part a ≤ 2 ^ 254 → InI256 (a +ℤ half_toward s)
unfolding ◌+ℤ◌ neg
sum_range a s h k = ground arith

quotient_range : (a : ℤ) → InI256 a → InI256 (a /ℤ scale_i128)
unfolding ◌/ℤ◌
quotient_range (pos a) h = ground arith
quotient_range (negsuc a) h = ground arith

module _ (w : Wide) where
  half_lem :
      (x : w.I256) {a : ℤ}
      → w.value x ≡ a
      → w.value (
          if w.is_negative x
          then w.minus (w.of_i128 (pos 500_000_000_000_000_000))
          else w.of_i128 (pos 500_000_000_000_000_000))
        ≡ half_toward (is_neg a)
  unfolding neg
  half_lem x p = ground (
    arith,
    w.is_negative_lem x,
    w.value-of_i128 (pos 500_000_000_000_000_000) (omega arith),
    w.value-minus (w.of_i128 (pos 500_000_000_000_000_000)),
  )

  unit_lem : w.value (w.of_i128 scale_i128) ≡ scale_i128
  unit_lem = w.value-of_i128 scale_i128 (omega arith)

  -- The product in 256 bits does not overflow, and is the rounded product, saturated.
  pub mul-eq :
      (x y : Decimal)
      → InI128 x.raw
      → InI128 y.raw
      → (mul w x y).raw ≡ saturate (round_unit (x.raw *ℤ y.raw))
  unfolding mul
  mul-eq x y hx hy =
      let (up, down) = product_range x.raw y.raw hx hy in
      let prod = reads-mul w (w.value-of_i128 x.raw hx) (w.value-of_i128 y.raw hy) (omega arith) in
      let sum_ok = sum_range (x.raw *ℤ y.raw) (is_neg (x.raw *ℤ y.raw)) up down in
      let sum = reads-add w prod (half_lem _ prod) sum_ok in
      let quotient = reads-div w sum unit_lem (λ e. cc) (quotient_range _ sum_ok) in
      signed_to_i128-eq-saturate w _ ∙ ap saturate (quotient ∙ half_away (x.raw *ℤ y.raw))

round_unit-signed :
    (s : Bool) (m : ℕ)
    → round_unit (signed s m) ≡ signed s ((m + 500_000_000_000_000_000) / scale_unit)
round_unit-signed s m = ground arith

-- `q` is `m / 10^18`, with the sign `s`, rounded to the nearest integer and halves away from zero.
abbrev pub IsNearest : Bool → ℕ → ℤ → Type 0
IsNearest s m q =
    (scale_unit * magnitude q ≤ m + 500_000_000_000_000_000)
    × (m + 500_000_000_000_000_000 < scale_unit * magnitude q + scale_unit)
    × (q ≡ signed s (magnitude q))

signed-IsNearest :
    (s : Bool) (m : ℕ) → IsNearest s m (signed s ((m + 500_000_000_000_000_000) / scale_unit))
signed-IsNearest s m =
    rw (magnitude-signed s ((m + 500_000_000_000_000_000) / scale_unit))
      (omega arith, omega arith, refl)

round_unit-* :
    (a b : ℤ)
    → IsNearest (differ (is_neg a) (is_neg b)) (magnitude a * magnitude b) (round_unit (a *ℤ b))
unfolding ◌*ℤ◌
round_unit-* a b =
    rw (round_unit-signed (differ (is_neg a) (is_neg b)) (magnitude a * magnitude b))
      (signed-IsNearest (differ (is_neg a) (is_neg b)) (magnitude a * magnitude b))

module _ (w : Wide) (x y : Decimal) (hx : InI128 x.raw) (hy : InI128 y.raw) where
  -- For two decimals in the i128 range, there is an integer that is the exact product in units
  -- of 10^-18, rounded to the nearest with halves away from zero and with the sign of the
  -- product, and the raw value of `mul` is this integer saturated to i128. No step overflows 256
  -- bits.
  pub mul-IsNearest :
      (q : ℤ) × IsNearest
        (differ (is_neg x.raw) (is_neg y.raw))
        (magnitude x.raw * magnitude y.raw)
        q
      × ((mul w x y).raw ≡ saturate q)
  mul-IsNearest = (round_unit (x.raw *ℤ y.raw), round_unit-* x.raw y.raw, mul-eq w x y hx hy)

raw_eq : (x y : Decimal) → x.raw ≡ y.raw → x ≡ y
raw_eq x y e = ground arith

module _ (w : Wide) (x y : Decimal) (hx : InI128 x.raw) (hy : InI128 y.raw) where
  pub mul_comm_lem : mul w x y ≡ mul w y x
  mul_comm_lem = raw_eq _ _ (
      mul-eq w x y hx hy
      ∙ ap (λ a. saturate (round_unit a)) (*ℤ_comm x.raw y.raw)
      ∙ sym (mul-eq w y x hy hx))

round_unit_multiple : (k : ℤ) → InI128 k → saturate (round_unit (k *ℤ scale_i128)) ≡ k
unfolding ◌*ℤ◌
round_unit_multiple (pos n) h = ground arith
round_unit_multiple (negsuc n) h = ground arith

-- A product that is a whole number of raw units and fits the range is exact.
pub mul_exact :
    (w : Wide) (x y : Decimal) (k : ℤ)
    → InI128 x.raw
    → InI128 y.raw
    → InI128 k
    → x.raw *ℤ y.raw ≡ k *ℤ scale_i128
    → (mul w x y).raw ≡ k
mul_exact w x y k hx hy hk e =
    mul-eq w x y hx hy ∙ ap (λ a. saturate (round_unit a)) e ∙ round_unit_multiple k hk
