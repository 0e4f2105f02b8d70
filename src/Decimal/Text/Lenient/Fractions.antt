-- ===== src/Decimal/Text/Lenient/Fractions.antt =====
-- Zeros at the end of a fraction and at the head of an integer part change nothing that `from_parts`
-- of crates/domain/src/decimal.rs reads.
use mathlib.Core.List.{append_assoc}
use hype_edge.Common.{
  ℕ, zero, suc, ◌+◌, ◌-◌, ◌≤◌, ◌≡◌, refl, sym, ap, ◌∙◌, Option, none, some, [], ◌∷◌, ◌++◌, arith,
  if◌then◌else◌, length,
}
use hype_edge.Common.Result.{Result, ok, bind_ok}
use hype_edge.Common.Int.{ℤ, pos}
use hype_edge.Decimal.{Decimal, DecimalError}
use hype_edge.Decimal.Text.Scan.{
  CodePoints, is_zero_digit, is_empty, trim_start_matches, trim_end_matches, keep_before, repeat,
  parse_i128,
}
use hype_edge.Decimal.Text.Digits.{Bare, trim_start-Bare, trim_start-Bare_self}
use hype_edge.Decimal.Text.Parts.{trim_end-repeat}
use hype_edge.Decimal.Text.{
  from_parts, bare_int, fraction_significant, fraction_raw, or_out_of_range,
}
use hype_edge.Decimal.Text.Lenient.{kept_fraction_part, take, fraction_or_empty}

bare_int-Bare :
    (t : CodePoints)
    → Bare is_zero_digit t
    → bare_int (if is_empty t then b'0' ∷ [] else t) ≡ (if is_empty t then b'0' ∷ [] else t)
unfolding bare_int
bare_int-Bare [] h = refl
bare_int-Bare (c ∷ t) h = rw (trim_start-Bare_self is_zero_digit (c ∷ t) h) refl

pub bare_int_idem : (s : CodePoints) → bare_int (bare_int s) ≡ bare_int s
bare_int_idem s =
    unfold bare_int in
    bare_int-Bare (trim_start_matches is_zero_digit s) (trim_start-Bare is_zero_digit s)

trim_end_idem :
    (s : CodePoints)
    → trim_end_matches is_zero_digit (trim_end_matches is_zero_digit s)
      ≡ trim_end_matches is_zero_digit s
unfolding trim_end_matches
trim_end_idem [] = refl
trim_end_idem (c ∷ s) = kept c (trim_end_matches is_zero_digit s) (trim_end_idem s)
  where
    kept :
        (c : ℕ) (t : CodePoints)
        → trim_end_matches is_zero_digit t ≡ t
        → trim_end_matches is_zero_digit (keep_before is_zero_digit c t)
          ≡ keep_before is_zero_digit c t
    kept c [] h = ground arith
    kept c (d ∷ t) h = rw h refl

take_short : (n : ℕ) (s : CodePoints) → length s ≤ n → take n s ≡ s
unfolding take
take_short zero [] h = refl
take_short zero (c ∷ s) h = absurd (omega arith)
take_short (suc n) [] h = refl
take_short (suc n) (c ∷ s) h = ap (λ t. c ∷ t) (take_short n s (omega arith))

repeat-append : (c a b : ℕ) → repeat c a ++ repeat c b ≡ repeat c (a + b)
unfolding repeat
repeat-append c zero b = ap (repeat c) (omega arith)
repeat-append c (suc a) b =
    let step : suc (a + b) ≡ suc a + b = omega arith in
    ap (λ t. c ∷ t) (repeat-append c a b) ∙ ap (repeat c) step

-- A fraction and what is left of it without the zeros at its end read the same.
abbrev SameFraction : Option CodePoints → Option CodePoints → Type 0
SameFraction f g =
    (fraction_significant f ≡ fraction_significant g) × (fraction_raw f ≡ fraction_raw g)

refill :
    (t f : CodePoints)
    → length f ≤ 18
    → length t ≤ length f
    → t ++ repeat b'0' (length f - length t) ≡ f
    → t ++ repeat b'0' (18 - length t) ≡ f ++ repeat b'0' (18 - length f)
refill t f short less whole =
    let total : (length f - length t) + (18 - length f) ≡ 18 - length t = omega arith in
    ap (λ n. t ++ repeat b'0' n) (sym total)
    ∙ ap (λ u. t ++ u) (sym (repeat-append b'0' (length f - length t) (18 - length f)))
    ∙ sym (append_assoc t _ _)
    ∙ ap (λ u. u ++ repeat b'0' (18 - length f)) whole

significant_short :
    (f : CodePoints)
    → length f ≤ 18
    → fraction_significant (some f) ≡ ok (length (trim_end_matches is_zero_digit f))
unfolding fraction_significant
significant_short f short = ground arith

-- The number that a filled fraction is read as.
filled_raw : CodePoints → Result DecimalError ℤ
filled_raw s = or_out_of_range (parse_i128 s)

zeros_raw : filled_raw (repeat b'0' 18) ≡ ok (pos 0)
unfolding filled_raw parse_i128 repeat
zeros_raw = refl

raw_filled :
    (f : CodePoints) → fraction_raw (some f) ≡ filled_raw (f ++ repeat b'0' (18 - length f))
unfolding fraction_raw filled_raw
raw_filled f = refl

kept_nonempty :
    (c : ℕ) (t : CodePoints) → length (c ∷ t) ≤ 18 → kept_fraction_part (c ∷ t) ≡ some (c ∷ t)
unfolding kept_fraction_part
kept_nonempty c t short = ap some (take_short 18 (c ∷ t) short)

kept_same :
    (t f : CodePoints)
    → length f ≤ 18
    → length t ≤ length f
    → trim_end_matches is_zero_digit f ≡ t
    → trim_end_matches is_zero_digit t ≡ t
    → t ++ repeat b'0' (18 - length t) ≡ f ++ repeat b'0' (18 - length f)
    → SameFraction (kept_fraction_part t) (some f)
kept_same [] f short less trimmed again filled =
    unfold kept_fraction_part fraction_significant fraction_raw in
    (
      sym (significant_short f short ∙ ap (λ t. ok (length t)) trimmed),
      sym (raw_filled f ∙ ap filled_raw (sym filled) ∙ zeros_raw),
    )
kept_same (c ∷ t) f short less trimmed again filled = rw (kept_nonempty c t (omega arith)) (
  significant_short (c ∷ t) (omega arith)
      ∙ ap (λ t. ok (length t)) (again ∙ sym trimmed)
      ∙ sym (significant_short f short),
  raw_filled (c ∷ t) ∙ ap filled_raw filled ∙ sym (raw_filled f),
)

at_most_18 : (f : CodePoints) (sig : ℕ) → fraction_significant (some f) ≡ ok sig → length f ≤ 18
unfolding fraction_significant
at_most_18 f sig h = ground arith

fraction_same :
    (frac : Option CodePoints) (sig : ℕ)
    → fraction_significant frac ≡ ok sig
    → SameFraction
        (kept_fraction_part (trim_end_matches is_zero_digit (fraction_or_empty frac)))
        frac
fraction_same none sig h = unfold kept_fraction_part trim_end_matches in (refl, refl)
fraction_same (some f) sig h =
    let t = trim_end_matches is_zero_digit f in
    let filled = trim_end-repeat f in
    let short = at_most_18 f sig h in
    kept_same t f short filled.1 refl (trim_end_idem f) (refill t f short filled.1 filled.0)

pub from_parts_trimmed :
    (int_part : CodePoints) (frac : Option CodePoints) (d : Decimal)
    → from_parts int_part frac ≡ ok d
    → from_parts
        (bare_int int_part)
        (kept_fraction_part (trim_end_matches is_zero_digit (fraction_or_empty frac)))
      ≡ ok d
unfolding from_parts
from_parts_trimmed int_part frac d h =
    let counted = bind_ok _ (fraction_significant frac) h in
    let same = fraction_same frac counted.0 counted.1 in
    rw (bare_int_idem int_part, same.0, same.1) h
