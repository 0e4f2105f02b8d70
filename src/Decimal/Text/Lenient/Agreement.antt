-- ===== src/Decimal/Text/Lenient/Agreement.antt =====
-- The lenient parser reads what the strict parser reads: crates/domain/src/decimal.rs,
-- `from_str_strict` and `from_str_lenient`.
use mathlib.Core.Path.{subst}
use mathlib.Core.List.{append-nil}
use hype_edge.Common.{
  ℕ, ◌≡◌, refl, sym, ap, ap₂, ◌∙◌, ◌≢◌, Bool, true, false, Option, none, some, [], ◌∷◌, ◌++◌, arith,
  ◌==◌, if◌then◌else◌, all, inl, inr, Bool-cases,
}
use hype_edge.Common.Result.{Result, ok, err, bind_ok, then_ok, ◌>>=◌}
use hype_edge.Common.Int.{pos}
use hype_edge.Decimal.{Decimal, DecimalError}
use hype_edge.Decimal.Text.Scan.{
  CodePoints, is_zero_digit, is_ascii_digit, is_empty, is_fraction, trim, trim_end_matches,
  split_once, strip_minus, int_loop, after_zero, regex_body_match,
}
use hype_edge.Decimal.Text.Format.{sign_text}
use hype_edge.Decimal.Text.Digits.{all-append}
use hype_edge.Decimal.Text.Trimming.{plain, digit_plain, trim-plain}
use hype_edge.Decimal.Text.Strict.{
  HasDigits, numeral_text, point_text, point_plain, sign_plain, numeral-ne-nil, strip_minus-sign,
}
use hype_edge.Decimal.Text.{from_parts, from_str_strict, parse_decimal_string, with_sign, bare_int}
use hype_edge.Decimal.Text.Lenient.Fractions.{from_parts_trimmed}
use hype_edge.Decimal.Text.Lenient.{
  fraction_or_empty, from_str_lenient, parse_lenient_decimal, apply_exponent, kept_fraction_part,
  is_exponent_mark, is_point, is_mantissa, strip_plus,
}

-- What a scanner returns: the parts of the text, digits before the point and after it.
abbrev Splits : CodePoints → Option (CodePoints × Option CodePoints) → Type 0
Splits s none = Unit
Splits s (some (int_part, frac)) =
    (s ≡ int_part ++ point_text frac) × (all is_ascii_digit int_part ≡ true) × HasDigits frac

Splits-digit :
    (c : ℕ) (s : CodePoints) (rest : Option (CodePoints × Option CodePoints))
    → is_ascii_digit c ≡ true
    → Splits s rest
    → Splits (c ∷ s) (elim rest [ some parts ↦ some (c ∷ parts.0, parts.1) | none ↦ none ])
Splits-digit c s none digit h = tt
Splits-digit c s (some (int_part, frac)) digit h = (ap (λ t. c ∷ t) h.0, ground (arith, h.1), h.2)

Splits-point :
    (c : ℕ) (before s : CodePoints) (point fraction : Bool)
    → (c == b'.') ≡ point
    → is_fraction s ≡ fraction
    → all is_ascii_digit before ≡ true
    → Splits
        (before ++ c ∷ s)
        (if point then (if fraction then some (before, some s) else none) else none)
Splits-point c before s false fraction hp hf hb = tt
Splits-point c before s true false hp hf hb = tt
Splits-point c before s true true hp hf hb =
    (let dot : c ≡ b'.' = ground arith in rw dot refl, hb, hf)

int_loop-Splits : (s : CodePoints) → Splits s (int_loop s)
unfolding int_loop
int_loop-Splits [] = (refl, refl, tt)
int_loop-Splits (c ∷ s) = elim (Bool-cases (is_ascii_digit c)) [
  | inl digit ↦ rw digit (Splits-digit c s (int_loop s) digit (int_loop-Splits s))
  | inr other ↦ rw other (Splits-point c [] s (c == b'.') (is_fraction s) refl refl refl)
]

after_zero-Splits : (s : CodePoints) → Splits (b'0' ∷ s) (after_zero s)
unfolding after_zero
after_zero-Splits [] = (refl, refl, tt)
after_zero-Splits (c ∷ frac) =
    Splits-point c (b'0' ∷ []) frac (c == b'.') (is_fraction frac) refl refl refl

regex_body_match-Splits : (body : CodePoints) → Splits body (regex_body_match body)
unfolding regex_body_match
regex_body_match-Splits [] = tt
regex_body_match-Splits (c ∷ s) = elim (Bool-cases (is_ascii_digit c)) [
  | inr other ↦ rw other tt
  | inl digit ↦ rw digit (elim (Bool-cases (c == b'0')) [
    | inl z ↦
        let zero_first : c ≡ b'0' = ground arith in
        rw z (subst (λ x. Splits (x ∷ s) (after_zero s)) (sym zero_first) (after_zero-Splits s))
    | inr more ↦ rw more (Splits-digit c s (int_loop s) digit (int_loop-Splits s))
  ])
]

regex-shape :
    (body int_part : CodePoints) (frac : Option CodePoints)
    → regex_body_match body ≡ some (int_part, frac)
    → int_part ≢ []
unfolding regex_body_match
regex-shape [] int_part frac h = absurd (cc)
regex-shape (c ∷ []) int_part frac h = ground arith
regex-shape (c ∷ e ∷ s) int_part frac h = ground arith

strip_minus-text : (s : CodePoints) → s ≡ sign_text (strip_minus s).1 ++ (strip_minus s).0
unfolding strip_minus
strip_minus-text [] = refl
strip_minus-text (c ∷ s) = ground arith

-- A text that the strict parser reads is a sign, digits and an optional fraction.
record IsWritten (s : CodePoints) (neg : Bool) (int_part : CodePoints) (frac : Option CodePoints)
    : Type 0 where
  pub trimmed : trim s ≡ numeral_text neg int_part frac
  pub digits : all is_ascii_digit int_part ≡ true
  pub shape : int_part ≢ []
  pub fraction : HasDigits frac

parsed_parts :
    {int_part : CodePoints} {neg : Bool} {frac : Option CodePoints} (blank sign : Bool)
    (r : Option (CodePoints × Option CodePoints))
    → if◌then◌else◌ {A = Result DecimalError (Bool × CodePoints × Option CodePoints)} blank
        (err DecimalError.invalid_format)
        (elim r [
          | some parts ↦ ok (sign, parts.0, parts.1)
          | none ↦ err DecimalError.invalid_format
        ])
      ≡ ok (neg, int_part, frac)
    → (r ≡ some (int_part, frac)) × (sign ≡ neg)
parsed_parts true sign r h = absurd (cc)
parsed_parts false sign none h = absurd (cc)
parsed_parts false sign (some parts) h = ground arith

parsed-IsWritten :
    (s int_part : CodePoints) (neg : Bool) (frac : Option CodePoints)
    → parse_decimal_string s ≡ ok (neg, int_part, frac)
    → IsWritten s neg int_part frac
unfolding parse_decimal_string
parsed-IsWritten s int_part neg frac h =
    let body = strip_minus (trim s) in
    let facts : (regex_body_match body.0 ≡ some (int_part, frac)) × (body.1 ≡ neg) =
      parsed_parts (is_empty (trim s)) body.1 (regex_body_match body.0) h in
    let split = subst (Splits body.0) facts.0 (regex_body_match-Splits body.0) in
    record {
      trimmed = strip_minus-text (trim s) ∙ ap₂ (λ n t. sign_text n ++ t) facts.1 split.0;
      digits = split.1;
      shape = regex-shape body.0 int_part frac facts.0;
      fraction = split.2;
    }

split_once-plain : (s : CodePoints) → all plain s ≡ true → split_once is_exponent_mark s ≡ (s, none)
unfolding split_once
split_once-plain [] h = refl
split_once-plain (c ∷ s) h = ground (arith, split_once-plain s)

split_once-point :
    (int_part : CodePoints) (frac : Option CodePoints)
    → all is_ascii_digit int_part ≡ true
    → split_once is_point (int_part ++ point_text frac) ≡ (int_part, frac)
unfolding split_once
split_once-point [] none h = refl
split_once-point [] (some frac) h = refl
split_once-point (c ∷ s) frac h = ground (arith, split_once-point s frac)

is_mantissa-digits :
    (seen : Bool) (s : CodePoints) → all is_ascii_digit s ≡ true → is_mantissa seen s ≡ true
unfolding is_mantissa
is_mantissa-digits seen [] h = refl
is_mantissa-digits seen (c ∷ s) h = ground (arith, is_mantissa-digits seen s)

is_mantissa-numeral :
    (int_part : CodePoints) (frac : Option CodePoints)
    → all is_ascii_digit int_part ≡ true
    → HasDigits frac
    → is_mantissa false (int_part ++ point_text frac) ≡ true
unfolding is_mantissa
is_mantissa-numeral [] none h hf = refl
is_mantissa-numeral [] (some frac) h hf = is_mantissa-digits true frac (ground arith)
is_mantissa-numeral (c ∷ s) frac h hf = ground (arith, is_mantissa-numeral s frac)

strip_plus-digits :
    (neg : Bool) (s t : CodePoints)
    → all is_ascii_digit s ≡ true
    → s ≢ []
    → (strip_plus (s ++ t, neg) ≡ (s ++ t, neg)) × (is_empty (s ++ t) ≡ false)
unfolding strip_plus
strip_plus-digits neg [] t h shape = absurd (shape refl)
strip_plus-digits true (c ∷ s) t h shape = (refl, refl)
strip_plus-digits false (c ∷ s) t h shape = (ground arith, refl)

-- The lenient parser takes a written decimal apart as the strict one does.
lenient-written :
    (s int_part : CodePoints) (neg : Bool) (frac : Option CodePoints)
    → IsWritten s neg int_part frac
    → parse_lenient_decimal (trim s) ≡ ok (neg, int_part ++ point_text frac, pos 0)
unfolding parse_lenient_decimal
lenient-written s int_part neg frac w =
    let body = int_part ++ point_text frac in
    let visible =
      all-append plain int_part _ (digit_plain int_part w.digits) (point_plain frac w.fraction) in
    let again : trim (trim s) ≡ numeral_text neg int_part frac =
      ap trim (w.trimmed ∙ sym (append-nil (numeral_text neg int_part frac)))
      ∙ trim-plain [] (numeral_text neg int_part frac) [] refl refl
          (numeral-ne-nil neg int_part (point_text frac) w.shape) (sign_plain neg body visible) in
    let plus = strip_plus-digits neg int_part (point_text frac) w.digits w.shape in
    rw
      (
        again,
        strip_minus-sign neg int_part w.shape w.digits (point_text frac),
        plus.0,
        split_once-plain body visible,
        plus.1,
        is_mantissa-numeral int_part frac w.digits w.fraction,
      )
      refl

apply_exponent-written :
    (int_part : CodePoints) (frac : Option CodePoints)
    → all is_ascii_digit int_part ≡ true
    → apply_exponent (int_part ++ point_text frac) (pos 0)
      ≡ ok (bare_int int_part, trim_end_matches is_zero_digit (fraction_or_empty frac))
unfolding apply_exponent
apply_exponent-written int_part frac h = rw (split_once-point int_part frac h) refl

lenient-parts :
    (s int_part : CodePoints) (neg : Bool) (frac : Option CodePoints) (d : Decimal)
    → parse_decimal_string s ≡ ok (neg, int_part, frac)
    → from_parts int_part frac ≡ ok d
    → from_str_lenient s ≡ ok (with_sign neg d)
unfolding from_str_lenient
lenient-parts s int_part neg frac d h parts =
    let written = parsed-IsWritten s int_part neg frac h in
    let signed_value : Decimal → Result DecimalError Decimal = λ d. ok (with_sign neg d) in
    let assembled : CodePoints × CodePoints → Result DecimalError Decimal =
      λ x. from_parts x.0 (kept_fraction_part x.1) >>= signed_value in
    then_ok _ _ _ (lenient-written s int_part neg frac written) (
      then_ok assembled _ _ (apply_exponent-written int_part frac written.digits)
        (then_ok signed_value _ d (from_parts_trimmed int_part frac d parts) refl))

-- Every text that the strict parser reads is read by the lenient parser as the same decimal.
pub lenient_of_strict :
    (s : CodePoints) (d : Decimal) → from_str_strict s ≡ ok d → from_str_lenient s ≡ ok d
unfolding from_str_strict
lenient_of_strict s d h =
    let parsed = bind_ok _ (parse_decimal_string s) h in
    let parts = bind_ok _ (from_parts parsed.0.1 parsed.0.2) parsed.2 in
    lenient-parts s parsed.0.1 parsed.0.0 parsed.0.2 parts.0 parsed.1 parts.1 ∙ parts.2
