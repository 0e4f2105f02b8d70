-- ===== src/Decimal/Quotients.antt =====
-- Quotients of decimals: crates/domain/src/decimal.rs, `div`, rounded half away from zero.
use native.Mathlib.Nat.{div-le_self, mul-div-le, lt-div-mul-add}
use hype_edge.Common.{
  ℕ, ◌+◌, ◌*◌, ◌/◌, ◌^◌, ◌<◌, ◌≤◌, ◌≡◌, ◌≢◌, refl, ap, ap₂, ◌∙◌, ◌↔◌, Bool, true, false, arith,
  if◌then◌else◌, none, some,
}
use hype_edge.Common.Int.{
  ℤ, pos, negsuc, ◌*ℤ◌, ◌/ℤ◌, neg, magnitude, is_neg, signed, differ, ltb_ℤ, pos-+ℤ,
}
use hype_edge.Decimal.{Decimal, div, is_zero, scale_unit, scale_i128}
use hype_edge.Decimal.WideInteger.{Wide, InI128}
use hype_edge.Decimal.Machine.{saturate}
use hype_edge.Decimal.Reads.{reads-add, reads-mul, reads-div, reads-minus}
use hype_edge.Decimal.Products.{magnitude_range, magnitude-signed}
use hype_edge.Decimal.Narrowing.{signed_to_i128-eq-saturate}

-- The magnitude of a quotient: |x| * 10^18 / |y| to the nearest integer, halves up.
abbrev pub quotient_magnitude : ℕ → ℕ → ℕ
quotient_magnitude m n = (m * scale_unit + n / 2) / n

numerator_le : (m n : ℕ) → m ≤ 2 ^ 127 → n ≤ 2 ^ 127 → m * scale_unit + n / 2 < 2 ^ 254
numerator_le m n h k = omega arith

quotient_le : (m n : ℕ) → m ≤ 2 ^ 127 → n ≤ 2 ^ 127 → quotient_magnitude m n < 2 ^ 254
quotient_le m n h k = omega (arith, numerator_le m n h k, div-le_self (m * scale_unit + n / 2) n)

pub ltb_zero : (a : ℤ) → ltb_ℤ a (pos 0) ≡ is_neg a
ltb_zero (pos n) = ground arith
ltb_zero (negsuc n) = ground arith

pos_of_nonzero : (y : Decimal) → is_zero y ≡ false → 0 < magnitude y.raw
unfolding is_zero
pos_of_nonzero y h = ground arith

abbrev raw_decimal : ℤ → Decimal
raw_decimal r = record { raw = r }

module _ (w : Wide) where
  quotient_lem :
      (m n : ℕ)
      → m ≤ 2 ^ 127
      → 0 < n
      → n ≤ 2 ^ 127
      → w.value (
          w.div
            (w.add
              (w.mul (w.of_u128 m) (w.of_i128 scale_i128))
              (w.div (w.of_u128 n) (w.of_i128 (pos 2))))
            (w.of_u128 n))
        ≡ pos (quotient_magnitude m n)
  unfolding ◌*ℤ◌ ◌/ℤ◌
  quotient_lem m n hm pn hn =
      let vn = w.value-of_u128 n (omega arith) in
      let vs = w.value-of_i128 scale_i128 (omega arith) in
      let v2 = w.value-of_i128 (pos 2) (omega arith) in
      let vnum : w.value (w.mul (w.of_u128 m) (w.of_i128 scale_i128)) ≡ pos (m * scale_unit) =
        reads-mul w (w.value-of_u128 m (omega arith)) vs (omega arith) in
      let vhalf : w.value (w.div (w.of_u128 n) (w.of_i128 (pos 2))) ≡ pos (n / 2) =
        reads-div w vn v2 (λ e. cc) (omega arith) in
      let vsum =
        reads-add w vnum vhalf (rw (pos-+ℤ (m * scale_unit) (n / 2)) (omega arith))
        ∙ pos-+ℤ (m * scale_unit) (n / 2) in
      reads-div w vsum vn (λ e. ground arith) (omega (arith, quotient_le m n hm hn))

  signed_lem :
      (s : Bool) (q : w.I256) (n : ℕ)
      → w.value q ≡ pos n
      → n < 2 ^ 254
      → w.value (if s then w.minus q else q) ≡ signed s n
  unfolding neg
  signed_lem true q n p h = reads-minus w p (ground arith)
  signed_lem false q n p h = p

  -- A division by a value other than zero gives the rounded quotient, saturated.
  pub div-eq :
      (x y : Decimal)
      → InI128 x.raw
      → InI128 y.raw
      → is_zero y ≡ false
      → div w x y
        ≡ some (record {
          raw = saturate (
              signed
                (differ (is_neg x.raw) (is_neg y.raw))
                (quotient_magnitude (magnitude x.raw) (magnitude y.raw)));
        })
  unfolding div
  div-eq x y hx hy nz =
      let m = magnitude x.raw in
      let n = magnitude y.raw in
      let hm = magnitude_range x.raw hx in
      let hn = magnitude_range y.raw hy in
      let signs = ap₂ differ (ltb_zero x.raw) (ltb_zero y.raw) in
      let quotient = quotient_lem m n hm (pos_of_nonzero y nz) hn in
      let signed_quotient =
        signed_lem (differ (ltb_ℤ x.raw (pos 0)) (ltb_ℤ y.raw (pos 0))) _ (quotient_magnitude m n)
          quotient (quotient_le m n hm hn)
        ∙ ap (λ s. signed s (quotient_magnitude m n)) signs in
      rw nz (
        ap (λ r. some (raw_decimal r))
          (signed_to_i128-eq-saturate w _ ∙ ap saturate signed_quotient))

  pub div_panics : (x y : Decimal) → (div w x y ≡ none) ↔ (is_zero y ≡ true)
  unfolding div
  div_panics x y = ground arith

-- `q` is `m * 10^18 / n`, with the sign `s`, rounded to the nearest integer and halves away from
-- zero.
abbrev pub IsQuotient : Bool → ℕ → ℕ → ℤ → Type 0
IsQuotient s m n q =
    (n * magnitude q ≤ m * scale_unit + n / 2)
    × (m * scale_unit + n / 2 < n * magnitude q + n)
    × (q ≡ signed s (magnitude q))

signed_quotient_lem :
    (s : Bool) (m n : ℕ) → 0 < n → IsQuotient s m n (signed s (quotient_magnitude m n))
signed_quotient_lem s m n h = rw (magnitude-signed s (quotient_magnitude m n)) (
  mul-div-le (m * scale_unit + n / 2) n,
  omega (arith, lt-div-mul-add {a = m * scale_unit + n / 2} {b = n} h),
  refl,
)

module _ (w : Wide) (x y : Decimal) (hx : InI128 x.raw) (hy : InI128 y.raw)
    (nonzero : is_zero y ≡ false) where
  -- For two decimals in the i128 range, the second not zero, `div` does not panic: there is an
  -- integer that is the exact quotient in units of 10^-18, rounded to the nearest with halves
  -- away from zero and with the sign of the quotient, and the result has this integer, saturated
  -- to i128, as its raw value.
  pub div_nearest :
      (q : ℤ) × IsQuotient
        (differ (is_neg x.raw) (is_neg y.raw))
        (magnitude x.raw)
        (magnitude y.raw)
        q
      × (div w x y ≡ some (record { raw = saturate q }))
  div_nearest = (
    signed (differ (is_neg x.raw) (is_neg y.raw))
        (quotient_magnitude (magnitude x.raw) (magnitude y.raw)),
    signed_quotient_lem (differ (is_neg x.raw) (is_neg y.raw)) (magnitude x.raw) (magnitude y.raw)
        (pos_of_nonzero y nonzero),
    div-eq w x y hx hy nonzero,
  )

pub div_total : (w : Wide) (a b : Decimal) → is_zero b ≡ false → div w a b ≢ none
unfolding div
div_total w a b h e = ground arith
