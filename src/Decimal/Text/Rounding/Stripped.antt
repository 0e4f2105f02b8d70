-- ===== src/Decimal/Text/Rounding/Stripped.antt =====
-- The trailing zeros that `as_tuple` of crates/domain/src/decimal.rs drops.
use native.Mathlib.Nat.{pow-suc, mul_assoc}
use hype_edge.Common.{
  ℕ, zero, suc, ◌+◌, ◌*◌, ◌^◌, ◌≡◌, refl, ap, ◌∙◌, inl, inr, true, arith, Bool-cases,
}
use hype_edge.Common.Int.{ℤ, pos, negsuc, ◌/ℤ◌, ◌%ℤ◌, magnitude, neg_part, pos_part, eq_ℤ}
use hype_edge.Decimal.{Decimal, strip_zeros, as_tuple}

-- Trailing zeros that are dropped, at most those of the scale, are counted by the exponent.
abbrev pub Stripped : ℕ → ℤ → ℤ × ℤ → Type 0
Stripped left raw t =
    (k : ℕ) × (k + neg_part t.1 ≡ left)
    × (pos_part t.1 ≡ 0)
    × (magnitude raw ≡ magnitude t.0 * 10 ^ k)

tenth_whole :
    (raw : ℤ) → eq_ℤ (raw %ℤ pos 10) (pos 0) ≡ true → magnitude raw ≡ magnitude (raw /ℤ pos 10) * 10
unfolding ◌/ℤ◌ ◌%ℤ◌
tenth_whole (pos n) h = ground arith
tenth_whole (negsuc n) h = ground arith

tenth :
    (raw : ℤ) (m p : ℕ)
    → eq_ℤ (raw %ℤ pos 10) (pos 0) ≡ true
    → magnitude (raw /ℤ pos 10) ≡ m * p
    → magnitude raw ≡ m * (p * 10)
tenth raw m p h e = tenth_whole raw h ∙ ap (λ t. t * 10) e ∙ mul_assoc m p 10

strip_zeros-Stripped : (left : ℕ) (raw : ℤ) → Stripped left raw (strip_zeros left raw)
unfolding strip_zeros
strip_zeros-Stripped zero raw = (0, omega arith, refl, omega arith)
strip_zeros-Stripped (suc left) raw = elim (Bool-cases (eq_ℤ raw (pos 0))) [
  | inl none_left ↦ rw none_left (0, omega arith, refl, omega arith)
  | inr nonzero ↦ rw nonzero (elim (Bool-cases (eq_ℤ (raw %ℤ pos 10) (pos 0))) [
    | inl more ↦
        let (k, total, sign, value) = strip_zeros-Stripped left (raw /ℤ pos 10) in
        rw more (suc k, omega (arith, total), sign, rw (pow-suc 10 k) (tenth raw _ _ more value))
    | inr done ↦ rw done (0, omega arith, refl, omega arith)
  ])
]

pub as_tuple-Stripped : (d : Decimal) → Stripped 18 d.raw (as_tuple d)
unfolding as_tuple
as_tuple-Stripped d = strip_zeros-Stripped 18 d.raw
