-- ===== src/Common/Int.antt =====
-- Signed integers over the native numbers: i64, i128 and I256 values are read as these, with the
-- range of the machine type written out where the code meets it.
use Prim.Native.Nat.{ℕ, suc, ◌+◌, ◌-◌, ◌*◌, ◌/◌, ◌%◌, ◌≤◌}
use mathlib.Core.Path.{◌≡◌, refl, ap}
use mathlib.Core.Logic.{◌⊎◌, inl, inr}
use mathlib.Core.Bool.{Bool, true, false}
use native.Mathlib.Nat.{mul_comm}
use native.Mathlib.Omega.{arith}
use hype_edge.Common.Tests.{ltb, leb, ◌==◌, if◌then◌else◌}

-- `negsuc n` is -(n + 1).
pub data ℤ : Type 0 where
  pos : ℕ → ℤ
  negsuc : ℕ → ℤ

abbrev pub pos_part : ℤ → ℕ
pos_part (pos n) = n
pos_part (negsuc n) = 0

abbrev pub neg_part : ℤ → ℕ
neg_part (pos n) = 0
neg_part (negsuc n) = suc n

-- a - b, as an integer.
abbrev pub sub_ℕ : ℕ → ℕ → ℤ
sub_ℕ a b = if leb b a then pos (a - b) else negsuc (b - a - 1)

-- The absolute value, as a natural number.
abbrev pub magnitude : ℤ → ℕ
magnitude (pos n) = n
magnitude (negsuc n) = suc n

abbrev pub is_neg : ℤ → Bool
is_neg (pos n) = false
is_neg (negsuc n) = true

-- The integer of a sign and a magnitude.
abbrev pub signed : Bool → ℕ → ℤ
signed neg n = if neg then sub_ℕ 0 n else pos n

-- The sign of a product, and of a quotient.
abbrev pub differ : Bool → Bool → Bool
differ false b = b
differ true false = true
differ true true = false

infixl 65 ◌+ℤ◌ ◌-ℤ◌
infixl 70 ◌*ℤ◌ ◌/ℤ◌ ◌%ℤ◌
infix 50 ◌≤ℤ◌ ◌<ℤ◌
unfoldable pub ◌+ℤ◌ : ℤ → ℤ → ℤ
a +ℤ b = sub_ℕ (pos_part a + pos_part b) (neg_part a + neg_part b)

unfoldable pub ◌-ℤ◌ : ℤ → ℤ → ℤ
a -ℤ b = sub_ℕ (pos_part a + neg_part b) (neg_part a + pos_part b)

unfoldable pub ◌*ℤ◌ : ℤ → ℤ → ℤ
a *ℤ b = signed (differ (is_neg a) (is_neg b)) (magnitude a * magnitude b)

-- Division and remainder as Rust's `/` and `%` on signed integers: toward zero, and the remainder
-- has the dividend's sign. The code never divides by zero here.
unfoldable pub ◌/ℤ◌ : ℤ → ℤ → ℤ
a /ℤ b = signed (differ (is_neg a) (is_neg b)) (magnitude a / magnitude b)

unfoldable pub ◌%ℤ◌ : ℤ → ℤ → ℤ
a %ℤ b = signed (is_neg a) (magnitude a % magnitude b)

unfoldable pub neg : ℤ → ℤ
neg a = sub_ℕ (neg_part a) (pos_part a)

abbrev pub ◌≤ℤ◌ : ℤ → ℤ → Type 0
a ≤ℤ b = pos_part a + neg_part b ≤ pos_part b + neg_part a

abbrev pub ◌<ℤ◌ : ℤ → ℤ → Type 0
a <ℤ b = suc (pos_part a + neg_part b) ≤ pos_part b + neg_part a

abbrev pub ltb_ℤ : ℤ → ℤ → Bool
ltb_ℤ a b = ltb (pos_part a + neg_part b) (pos_part b + neg_part a)

abbrev pub leb_ℤ : ℤ → ℤ → Bool
leb_ℤ a b = leb (pos_part a + neg_part b) (pos_part b + neg_part a)

abbrev pub eq_ℤ : ℤ → ℤ → Bool
eq_ℤ a b = (pos_part a + neg_part b) == (pos_part b + neg_part a)

abbrev pub max_ℤ : ℤ → ℤ → ℤ
max_ℤ a b = if leb_ℤ a b then b else a

abbrev pub min_ℤ : ℤ → ℤ → ℤ
min_ℤ a b = if leb_ℤ a b then a else b

-- Facts that let `omega` and `grind` work with the operations shut.
pub +ℤ_parts :
    (a b : ℤ)
    → pos_part (a +ℤ b) + neg_part a + neg_part b ≡ neg_part (a +ℤ b) + pos_part a + pos_part b
unfolding ◌+ℤ◌
+ℤ_parts a b = ground arith

pub -ℤ_parts :
    (a b : ℤ)
    → pos_part (a -ℤ b) + neg_part a + pos_part b ≡ neg_part (a -ℤ b) + pos_part a + neg_part b
unfolding ◌-ℤ◌
-ℤ_parts a b = ground arith

pub neg_parts : (a : ℤ) → (pos_part (neg a) ≡ neg_part a) × (neg_part (neg a) ≡ pos_part a)
unfolding neg
neg_parts a = ground arith

pub eq_of_parts : (a b : ℤ) → pos_part a + neg_part b ≡ pos_part b + neg_part a → a ≡ b
eq_of_parts a b h = ground arith

pub pos-+ℤ : (a b : ℕ) → pos a +ℤ pos b ≡ pos (a + b)
unfolding ◌+ℤ◌
pos-+ℤ a b = ground arith

pub ℤ-cases : (a : ℤ) → ((n : ℕ) × (a ≡ pos n)) ⊎ ((n : ℕ) × (a ≡ negsuc n))
ℤ-cases (pos n) = inl (n, refl)
ℤ-cases (negsuc n) = inr (n, refl)

pub eq_ℤ→eq : (a b : ℤ) → eq_ℤ a b ≡ true → a ≡ b
eq_ℤ→eq a b h = ground arith

pub eq_ℤ-refl : (a : ℤ) → eq_ℤ a a ≡ true
eq_ℤ-refl a = ground arith

pub *ℤ_comm : (a b : ℤ) → a *ℤ b ≡ b *ℤ a
unfolding ◌*ℤ◌
*ℤ_comm (pos a) (pos b) = ap pos (mul_comm a b)
*ℤ_comm (pos a) (negsuc b) = ap (signed true) (mul_comm a (suc b))
*ℤ_comm (negsuc a) (pos b) = ap (signed true) (mul_comm (suc a) b)
*ℤ_comm (negsuc a) (negsuc b) = ap pos (mul_comm (suc a) (suc b))

pub ruleset int_laws = (arith, +ℤ_parts, -ℤ_parts, eq_of_parts)
