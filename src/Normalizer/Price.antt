-- ===== src/Normalizer/Price.antt =====
-- The step that a price is floored to: crates/trading/src/execution/normalizer.rs,
-- `normalize_price`.
use native.Mathlib.Nat.{pow-le-pow_right}
use hype_edge.Common.{
  ℕ, zero, suc, ◌-◌, ◌^◌, ◌<◌, ◌≤◌, ◌≡◌, refl, ap, Bool, true, false, ◌&&◌, Option, none, some, ◌∷◌,
  arith, if◌then◌else◌, inl, inr, Bool-cases,
}
use hype_edge.Common.Result.{Result, ok, err}
use hype_edge.Common.Int.{ℤ, pos, eq_ℤ, eq_ℤ→eq, leb_ℤ, ◌*ℤ◌, ◌+ℤ◌}
use hype_edge.Decimal.{Decimal, DecimalError, max, scale_unit, as_tuple}
use hype_edge.Decimal.Steps.{positive}
use hype_edge.Decimal.Text.Scan.{is_whitespace}
use hype_edge.Decimal.Text.Format.{print_u128}
use hype_edge.Decimal.Text.Lenient.{from_str_lenient}
use hype_edge.Normalizer.{
  InstrumentSpec, dynamic_step, price_step, allowed_decimals, clamp_decimals,
}

-- A step above 0 and of at most 1.
abbrev pub IsFine : Decimal → Type 0
IsFine d = (s : ℕ) × (d ≡ positive s) × (0 < s) × (s ≤ scale_unit)

all_below : ℕ → (ℕ → Bool) → Bool
all_below zero test = true
all_below (suc n) test = test n && all_below n test

all_below_sound :
    (n : ℕ) (test : ℕ → Bool) (x : ℕ) → all_below n test ≡ true → x < n → test x ≡ true
unfolding all_below
all_below_sound zero test x h lt = absurd (omega arith)
all_below_sound (suc n) test x h lt = ground (arith, all_below_sound n test x)

abbrev is_power_step : ℕ → Bool
is_power_step n = elim (from_str_lenient (b'1' ∷ b'e' ∷ b'-' ∷ print_u128 n)) [
  | ok step ↦ eq_ℤ step.raw (pos (10 ^ (18 - n)))
  | err e ↦ false
]

power_steps : all_below 19 is_power_step ≡ true
unfolding all_below from_str_lenient is_whitespace print_u128 ◌*ℤ◌ ◌+ℤ◌
power_steps = refl

step_of_test :
    (r : Result DecimalError Decimal) (tick : Decimal) (n : ℕ)
    → elim r [ ok step ↦ eq_ℤ step.raw (pos (10 ^ (18 - n))) | err e ↦ false ] ≡ true
    → elim r [ ok step ↦ step | err e ↦ tick ] ≡ positive (10 ^ (18 - n))
step_of_test (err e) tick n h = absurd (cc)
step_of_test (ok d) tick n h =
    ap (λ (raw : ℤ). record { raw = raw }) (eq_ℤ→eq d.raw (pos (10 ^ (18 - n))) h)

-- The text "1e-n" is read as 10^-n.
pub dynamic_step_lem :
    (tick : Decimal) (n : ℕ) → n ≤ 18 → dynamic_step tick n ≡ positive (10 ^ (18 - n))
unfolding dynamic_step
dynamic_step_lem tick n h =
    step_of_test _ tick n (all_below_sound 19 is_power_step n power_steps (omega arith))

clamped : (a : ℤ) → clamp_decimals a ≤ 18
unfolding clamp_decimals
clamped a = ground arith

allowed_decimals_bound :
    (value : Decimal) (max_decimals max_figures : ℕ)
    → allowed_decimals value max_decimals max_figures ≤ 18
unfolding allowed_decimals
allowed_decimals_bound value max_decimals max_figures = clamped _

powers_fine : (n : ℕ) → n ≤ 18 → (0 < 10 ^ n) × (10 ^ n ≤ scale_unit)
powers_fine n h = (
  pow-le-pow_right {n = 10} (omega arith) {i = 0} {j = n} (omega arith),
  pow-le-pow_right {n = 10} (omega arith) {i = n} {j = 18} h,
)

max-IsFine : (a b : Decimal) → IsFine a → IsFine b → IsFine (max a b)
unfolding max
max-IsFine a b ha hb = elim (Bool-cases (leb_ℤ b.raw a.raw)) [ inl e ↦ rw e ha | inr e ↦ rw e hb ]

-- The step of a price is fine if the tick is.
pub price_step-IsFine :
    (value : Decimal) (spec : InstrumentSpec)
    → IsFine spec.tick_size
    → IsFine (price_step value spec)
unfolding price_step
price_step-IsFine value spec fine =
    chosen spec.max_price_decimals (leb_ℤ (pos 0) (as_tuple value).1)
  where
    chosen :
        (decimals : Option ℕ) (integral : Bool)
        → IsFine (elim decimals [
          | none ↦ spec.tick_size
          | some max_decimals ↦
              if integral
              then spec.tick_size
              else max spec.tick_size (
                  dynamic_step spec.tick_size
                    (allowed_decimals value max_decimals spec.max_significant_figures))
        ])
    chosen none integral = fine
    chosen (some n) true = fine
    chosen (some n) false =
        let allowed = allowed_decimals value n spec.max_significant_figures in
        let bound = allowed_decimals_bound value n spec.max_significant_figures in
        let power = powers_fine (18 - allowed) (omega arith) in
        max-IsFine spec.tick_size (dynamic_step spec.tick_size allowed) fine
          (10 ^ (18 - allowed), dynamic_step_lem spec.tick_size allowed bound, power.0, power.1)
