-- ===== src/Decimal/Places.antt =====
-- Powers of ten, truncation and rounding to decimal places, and construction from a coefficient and
-- an exponent: crates/domain/src/decimal.rs, `pow10_i128`, `quantize`, `round_to_places` and
-- `with_exponent`.
use native.Mathlib.Nat.{
  pow-suc, mul_comm, mul-le-mul, zero-add, suc-add, mul_assoc, mul-one, one-mul, lt-div-mul-add,
  div-mul-le_self,
}
use hype_edge.Common.{
  ℕ, zero, suc, ◌+◌, ◌-◌, ◌*◌, ◌/◌, ◌^◌, ◌<◌, ◌≤◌, ◌≡◌, refl, sym, ap, ◌∙◌, ◌≢◌, Bool, true, false,
  inl, inr, arith, if◌then◌else◌, none, some, leb, ltb, Bool-cases,
}
use hype_edge.Common.Result.{Result, ok, err}
use hype_edge.Common.Int.{ℤ, pos, negsuc, ◌+ℤ◌, ◌*ℤ◌, ◌/ℤ◌, magnitude, is_neg, signed, differ}
use hype_edge.Decimal.{
  Decimal, DecimalError, out_of_range, pow10, pow10_loop, quantize, round_to_places, with_exponent,
  scale_i128,
}
use hype_edge.Decimal.Products.{magnitude-signed, magnitude-*}
use hype_edge.Decimal.Machine.{saturating_add, checked, checked_abs, i128_max}
use hype_edge.Decimal.Quotients.{ltb_zero}

pow10_loop_lem : (k r : ℕ) → pow10_loop k r ≡ r * 10 ^ k
unfolding pow10_loop
pow10_loop_lem zero r = omega arith
pow10_loop_lem (suc k) r =
    pow10_loop_lem k (r * 10)
    ∙ mul_assoc r 10 (10 ^ k)
    ∙ ap (λ t. r * t) (mul_comm 10 (10 ^ k) ∙ sym (pow-suc 10 k))

-- The loop computes the power of ten.
pub pow10_lem : (e : ℕ) → pow10 e ≡ 10 ^ e
unfolding pow10
pow10_lem e = pow10_loop_lem e 1 ∙ one-mul (10 ^ e)

pow10_pos : (e : ℕ) → 0 < 10 ^ e
pow10_pos zero = omega arith
pow10_pos (suc e) = rw (pow-suc 10 e) (omega (arith, pow10_pos e))

pub signed-*ℤ : (s : Bool) (q u : ℕ) → signed s q *ℤ pos u ≡ signed s (q * u)
unfolding ◌*ℤ◌
signed-*ℤ false q u = refl
signed-*ℤ true zero u = ground arith
signed-*ℤ true (suc q) u = ground arith

differ-false : (s : Bool) → differ s false ≡ s
differ-false true = refl
differ-false false = refl

truncate : (a : ℤ) (u : ℕ) → a /ℤ pos u *ℤ pos u ≡ signed (is_neg a) (magnitude a / u * u)
unfolding ◌/ℤ◌
truncate a u = rw (differ-false (is_neg a)) (signed-*ℤ (is_neg a) (magnitude a / u) u)

quantize-eq :
    (d : Decimal) (places : ℕ)
    → places < 18
    → (quantize d places).raw
      ≡ signed (is_neg d.raw) (magnitude d.raw / 10 ^ (18 - places) * 10 ^ (18 - places))
unfolding quantize
quantize-eq d places h =
    ground (arith, truncate d.raw (10 ^ (18 - places)), pow10_lem (18 - places))

-- For fewer than 18 places, quantizing keeps the sign and gives the greatest multiple of the
-- unit of the last place whose magnitude is not above that of the decimal.
pub quantize_truncates :
    (d : Decimal) (places : ℕ)
    → places < 18
    → let q = (quantize d places).raw in
      let unit = 10 ^ (18 - places) in
      (q ≡ signed (is_neg d.raw) (magnitude q))
      × (magnitude q ≡ magnitude d.raw / unit * unit)
      × (magnitude q ≤ magnitude d.raw)
      × (magnitude d.raw < magnitude q + unit)
quantize_truncates d places h =
    let unit = 10 ^ (18 - places) in
    let m = magnitude d.raw in
    rw (quantize-eq d places h) (
      rw (magnitude-signed (is_neg d.raw) (m / unit * unit)) (
        refl,
        refl,
        div-mul-le_self m unit,
        lt-div-mul-add {a = m} {b = unit} (pow10_pos (18 - places)),
      ))

pub signed_sign : (s : Bool) (n : ℕ) → pos n *ℤ (if s then negsuc 0 else pos 1) ≡ signed s n
unfolding ◌*ℤ◌
signed_sign true n = ap (signed true) (mul-one n)
signed_sign false n = ap pos (mul-one n)

pos-/ℤ : (n u : ℕ) → pos n /ℤ pos u ≡ pos (n / u)
unfolding ◌/ℤ◌
pos-/ℤ n u = refl

pos-*ℤ : (n u : ℕ) → pos n *ℤ pos u ≡ pos (n * u)
unfolding ◌*ℤ◌
pos-*ℤ n u = refl

saturating_sum :
    (a : ℤ) (half : ℕ)
    → magnitude a + half < 2 ^ 127
    → saturating_add (elim (checked_abs a) [ some v ↦ v | none ↦ i128_max ]) (pos half)
      ≡ pos (magnitude a + half)
unfolding ◌+ℤ◌
saturating_sum (pos n) half h = ground arith
saturating_sum (negsuc n) half h = ground arith

round-eq :
    (d : Decimal) (places : ℕ)
    → places < 18
    → magnitude d.raw + 10 ^ (18 - places) / 2 < 2 ^ 127
    → (round_to_places d places).raw
      ≡ signed
          (is_neg d.raw)
          ((magnitude d.raw + 10 ^ (18 - places) / 2) / 10 ^ (18 - places) * 10 ^ (18 - places))
unfolding round_to_places
round-eq d places h fits =
    let unit = 10 ^ (18 - places) in
    let m = magnitude d.raw + unit / 2 in
    elim (Bool-cases (leb 18 places)) [
      | inl e ↦ absurd (ground arith)
      | inr e ↦
          rw
            (
              e,
              pow10_lem (18 - places),
              pos-/ℤ unit 2,
              saturating_sum d.raw (unit / 2) fits,
              pos-/ℤ m unit,
              pos-*ℤ (m / unit) unit,
              ltb_zero d.raw,
            )
            (signed_sign (is_neg d.raw) (m / unit * unit))
    ]

-- For fewer than 18 places and a magnitude that half a unit of the last place does not carry out
-- of the i128 range, rounding gives a multiple of that unit with the sign of the decimal, and it
-- is the nearest multiple, halves away from zero.
pub round_nearest :
    (d : Decimal) (places : ℕ)
    → places < 18
    → magnitude d.raw + 10 ^ (18 - places) / 2 < 2 ^ 127
    → let q = (round_to_places d places).raw in
      let unit = 10 ^ (18 - places) in
      (q ≡ signed (is_neg d.raw) (magnitude q))
      × ((k : ℕ) × (magnitude q ≡ k * unit))
      × (magnitude q ≤ magnitude d.raw + unit / 2)
      × (magnitude d.raw + unit / 2 < magnitude q + unit)
round_nearest d places h fits =
    let unit = 10 ^ (18 - places) in
    let m = magnitude d.raw + unit / 2 in
    rw (round-eq d places h fits) (
      rw (magnitude-signed (is_neg d.raw) (m / unit * unit)) (
        refl,
        (m / unit, refl),
        div-mul-le_self m unit,
        lt-div-mul-add {a = m} {b = unit} (pow10_pos (18 - places)),
      ))

checked-ok :
    (a : ℤ) {d : Decimal}
    → ◌≡◌ {A = Result DecimalError Decimal}
        (elim (checked a) [ some raw ↦ ok (record { raw = raw }) | none ↦ err out_of_range ])
        (ok d)
    → d.raw ≡ a
checked-ok a h = ground arith

*ℤ-pos : (a : ℤ) (m : ℕ) → a *ℤ pos m ≡ signed (is_neg a) (magnitude a * m)
unfolding ◌*ℤ◌
*ℤ-pos a m = rw (differ-false (is_neg a))

*ℤ-pos-pos : (a : ℤ) (m n : ℕ) → a *ℤ pos m *ℤ pos n ≡ a *ℤ pos (m * n)
*ℤ-pos-pos a m n = rw (
  *ℤ-pos a m,
  *ℤ-pos a (m * n),
  signed-*ℤ (is_neg a) (magnitude a * m) n,
  mul_assoc (magnitude a) m n,
)

pub pow10_add : (a b : ℕ) → 10 ^ a * 10 ^ b ≡ 10 ^ (b + a)
pow10_add a zero = omega (arith, ap (λ (n : ℕ). 10 ^ n) (zero-add a))
pow10_add a (suc b) =
    rw (
      pow-suc 10 b,
      suc-add b a,
      pow-suc 10 (b + a),
      ← mul_assoc (10 ^ a) (10 ^ b) 10,
      pow10_add a b,
    )

-- A negative exponent of at most 18 digits scales the coefficient without loss.
pub with_exponent_negative :
    (coeff : ℤ) (e : ℕ) (d : Decimal)
    → e < 18
    → with_exponent coeff (negsuc e) ≡ ok d
    → d.raw *ℤ pos (10 ^ suc e) ≡ coeff *ℤ scale_i128
unfolding with_exponent
with_exponent_negative coeff e d h eq = elim (Bool-cases (ltb 18 (suc e))) [
  | inl big ↦ absurd (ground arith)
  | inr small ↦
      let total : suc e + (18 - suc e) ≡ 18 = omega arith in
      let raw = checked-ok (coeff *ℤ pos (pow10 (18 - suc e))) (rw small at eq) in
      rw
        (
          raw,
          pow10_lem (18 - suc e),
          *ℤ-pos-pos coeff (10 ^ (18 - suc e)) (10 ^ suc e),
          pow10_add (18 - suc e) (suc e),
        )
        (ap (λ (n : ℕ). coeff *ℤ pos (10 ^ n)) total)
]

magnitude_pos : (a : ℤ) → a ≢ pos 0 → 0 < magnitude a
magnitude_pos a h = ground arith

-- For a coefficient other than zero and an exponent e that is not negative, a successful
-- `with_exponent` has the raw value coefficient × 10^e, which is not the raw value coefficient ×
-- 10^e × 10^18 of the decimal that the two denote.
pub with_exponent_unscaled :
    (coeff : ℤ) (e : ℕ) (d : Decimal)
    → coeff ≢ pos 0
    → with_exponent coeff (pos e) ≡ ok d
    → (d.raw ≡ coeff *ℤ pos (10 ^ e)) × (d.raw ≢ coeff *ℤ pos (10 ^ e) *ℤ scale_i128)
unfolding with_exponent
with_exponent_unscaled coeff e d nz eq =
    let raw : d.raw ≡ coeff *ℤ pos (10 ^ e) =
      checked-ok _ eq ∙ ap (λ n. coeff *ℤ pos n) (pow10_lem e) in
    (
      raw,
      λ bad.
          let same = ap magnitude (sym raw ∙ bad) in
          let product = magnitude-* (coeff *ℤ pos (10 ^ e)) scale_i128 in
          let here = magnitude-* coeff (pos (10 ^ e)) in
          let some_unit = mul-le-mul (magnitude_pos coeff nz) (pow10_pos e) in
          omega (arith, same, product, here, some_unit),
    )
