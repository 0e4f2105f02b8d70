-- ===== src/Decimal/WideInteger.antt =====
-- The 256-bit integers of the package `ethnum`, which crates/domain/src/decimal.rs computes products
-- and quotients in. The package is not part of the repository, so it is an interface here: the
-- operations that the code calls, and what the code relies on.
use hype_edge.Common.{
  ℕ, ◌%◌, ◌-◌, ◌^◌, ◌≤◌, ◌<◌, ◌≡◌, refl, ◌↔◌, ◌≢◌, Bool, true, arith, ltb, if◌then◌else◌,
}
use hype_edge.Common.Int.{
  ℤ, pos, negsuc, pos_part, neg_part, ◌+ℤ◌, ◌-ℤ◌, ◌*ℤ◌, ◌/ℤ◌, neg, is_neg, eq_ℤ, eq_ℤ→eq, eq_ℤ-refl,
}

-- The values that an i128 holds, and those that an I256 holds.
abbrev pub InI128 : ℤ → Type 0
InI128 a = (pos_part a < 2 ^ 127) × (neg_part a ≤ 2 ^ 127)

abbrev pub InI256 : ℤ → Type 0
InI256 a = (pos_part a < 2 ^ 255) × (neg_part a ≤ 2 ^ 255)

pub record Wide : Type 1 where
  pub I256 : Type 0
  pub value : I256 → ℤ
  pub of_i128 : ℤ → I256
  pub of_u128 : ℕ → I256
  pub add : I256 → I256 → I256
  pub sub : I256 → I256 → I256
  pub mul : I256 → I256 → I256
  pub div : I256 → I256 → I256
  pub minus : I256 → I256
  pub is_negative : I256 → Bool
  pub equal : I256 → I256 → Bool
  pub as_i128 : I256 → ℤ
  pub value-of_i128 : (a : ℤ) → InI128 a → value (of_i128 a) ≡ a
  pub value-of_u128 : (n : ℕ) → n < 2 ^ 128 → value (of_u128 n) ≡ pos n
  pub value-add : (x y : I256) → InI256 (value x +ℤ value y) → value (add x y) ≡ value x +ℤ value y
  pub value-sub : (x y : I256) → InI256 (value x -ℤ value y) → value (sub x y) ≡ value x -ℤ value y
  pub value-mul : (x y : I256) → InI256 (value x *ℤ value y) → value (mul x y) ≡ value x *ℤ value y
  pub value-div :
      (x y : I256)
      → value y ≢ pos 0
      → InI256 (value x /ℤ value y)
      → value (div x y) ≡ value x /ℤ value y
  pub value-minus : (x : I256) → InI256 (neg (value x)) → value (minus x) ≡ neg (value x)
  pub is_negative_lem : (x : I256) → is_negative x ≡ is_neg (value x)
  pub equal_iff : (x y : I256) → (equal x y ≡ true) ↔ (value x ≡ value y)
  -- The narrowing keeps a value that fits, and always gives an i128.
  pub as_i128_fits : (x : I256) → InI128 (value x) → as_i128 x ≡ value x
  pub as_i128_range : (x : I256) → InI128 (as_i128 x)

-- The low 128 bits, read in two's complement.
abbrev pub low_128 : ℤ → ℕ
low_128 (pos n) = n % 2 ^ 128
low_128 (negsuc n) = 2 ^ 128 - 1 - n % 2 ^ 128

abbrev pub wrap_i128 : ℤ → ℤ
wrap_i128 a = let u = low_128 a in if ltb u (2 ^ 127) then pos u else negsuc (2 ^ 128 - 1 - u)

pub wrap_i128_fits : (a : ℤ) → InI128 a → wrap_i128 a ≡ a
wrap_i128_fits (pos n) h = ground arith
wrap_i128_fits (negsuc n) h = ground arith

pub wrap_i128_range : (a : ℤ) → InI128 (wrap_i128 a)
wrap_i128_range (pos n) = ground arith
wrap_i128_range (negsuc n) = ground arith

pub eq_ℤ_iff : (a b : ℤ) → (eq_ℤ a b ≡ true) ↔ (a ≡ b)
eq_ℤ_iff a b = (eq_ℤ→eq a b, λ e. rw e (eq_ℤ-refl b))

-- A value of the interface, with the integers themselves: the assumptions can be met.
abbrev pub exact_wide : Wide
exact_wide = record {
  I256 = ℤ;
  value = λ a. a;
  of_i128 = λ a. a;
  of_u128 = pos;
  add = ◌+ℤ◌;
  sub = ◌-ℤ◌;
  mul = ◌*ℤ◌;
  div = ◌/ℤ◌;
  minus = neg;
  is_negative = is_neg;
  equal = eq_ℤ;
  as_i128 = wrap_i128;
  value-of_i128 = λ a h. refl;
  value-of_u128 = λ n h. refl;
  value-add = λ x y h. refl;
  value-sub = λ x y h. refl;
  value-mul = λ x y h. refl;
  value-div = λ x y h k. refl;
  value-minus = λ x h. refl;
  is_negative_lem = λ x. refl;
  equal_iff = eq_ℤ_iff;
  as_i128_fits = wrap_i128_fits;
  as_i128_range = wrap_i128_range;
}
