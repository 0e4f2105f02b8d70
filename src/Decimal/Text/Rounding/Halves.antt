-- ===== src/Decimal/Text/Rounding/Halves.antt =====
-- Halves to even: the quotient in `round_significant_half_even` of crates/domain/src/decimal.rs.
use native.Mathlib.Nat.{mul-le-mul, mul_assoc, div-add-mod', mod-lt}
use hype_edge.Common.{
  ℕ, suc, ◌+◌, ◌*◌, ◌/◌, ◌%◌, ◌≤◌, ◌<◌, ◌≡◌, sym, ◌⊎◌, inl, inr, arith, ltb, Bool-cases,
}
use hype_edge.Decimal.Text.Rounding.{half_even}

-- The quotient rounded to the nearest: at most half a unit away, and even at a tie.
abbrev pub IsNearestEven : ℕ → ℕ → ℕ → Type 0
IsNearestEven c unit q =
    (2 * (q * unit) ≤ 2 * c + unit)
    × (2 * c ≤ 2 * (q * unit) + unit)
    × ((q % 2 ≡ 0) ⊎ ((2 * (q * unit) < 2 * c + unit) × (2 * c < 2 * (q * unit) + unit)))

next_multiple : (q u : ℕ) → (q + 1) * u ≡ q * u + u
next_multiple q u = grind arith

pub half_even-IsNearestEven :
    (c u half : ℕ) → 0 < half → u ≡ 2 * half → IsNearestEven c u (half_even c u)
unfolding half_even
half_even-IsNearestEven c u half h e =
    let split = div-add-mod' c u in
    let below : c % u < u = mod-lt c (omega arith) in
    let middle : u / 2 ≡ half = omega arith in
    ground (arith, split, below, middle, next_multiple (c / u) u)

pub scaled_le : (a b w : ℕ) → a ≤ b → a * w ≤ b * w
scaled_le a b w h = mul-le-mul h (omega arith)

scaled_lt : (a b w : ℕ) → 0 < w → a < b → a * w < b * w
scaled_lt a b w h k =
    let next : suc a * w ≡ a * w + w = grind arith in omega (arith, next, scaled_le (suc a) b w k)

-- The units and the value may be scaled together.
pub IsNearestEven-scaled :
    (c u q w : ℕ) → 0 < w → IsNearestEven c u q → IsNearestEven (c * w) (u * w) q
IsNearestEven-scaled c u q w h (above, below, tie) =
    let product : q * (u * w) ≡ q * u * w = sym (mul_assoc q u w) in
    let above' = scaled_le (2 * (q * u)) (2 * c + u) w above in
    let below' = scaled_le (2 * c) (2 * (q * u) + u) w below in
    rw product (
      grind arith,
      grind arith,
      elim tie [
        | inl even ↦ inl even
        | inr (over, under) ↦
            let over' = scaled_lt (2 * (q * u)) (2 * c + u) w h over in
            let under' = scaled_lt (2 * c) (2 * (q * u) + u) w h under in
            inr (grind arith, grind arith)
      ],
    )

pub at_least : (q u c t : ℕ) → 0 < u → 2 * c ≤ 2 * (q * u) + u → t * u ≤ c → t ≤ q
at_least q u c t h near least = elim (Bool-cases (ltb q t)) [
  | inl small ↦ absurd (omega (arith, scaled_le (q + 1) t u (ground arith), next_multiple q u))
  | inr e ↦ ground arith
]

pub at_most : (q u c t : ℕ) → 2 * (q * u) ≤ 2 * c + u → c < t * u → q ≤ t
at_most q u c t near most = elim (Bool-cases (ltb t q)) [
  | inl large ↦ absurd (omega (arith, scaled_le (t + 1) q u (ground arith), next_multiple t u))
  | inr e ↦ ground arith
]
