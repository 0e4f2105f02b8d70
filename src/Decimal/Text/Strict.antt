-- ===== src/Decimal/Text/Strict.antt =====
-- The strict parser on written decimals: crates/domain/src/decimal.rs, `from_str_strict`,
-- `parse_decimal_string` and `regex_body_match`.
use hype_edge.Common.{
  ℕ, zero, suc, ◌+◌, ◌-◌, ◌*◌, ◌^◌, ◌≤◌, ◌<◌, ◌≡◌, refl, ap, ◌∙◌, ◌≢◌, Bool, true, false, Option,
  none, some, [], ◌∷◌, ◌++◌, arith, length, all,
}
use hype_edge.Common.Result.{ok}
use hype_edge.Common.Int.{pos, negsuc, signed, neg as neg_ℤ}
use hype_edge.Decimal.{scale_unit, negate}
use hype_edge.Decimal.WideInteger.{wrap_i128}
use hype_edge.Decimal.Text.Scan.{
  CodePoints, is_zero_digit, is_ascii_digit, is_whitespace, is_empty, is_fraction, strip_minus,
  regex_body_match, int_loop,
}
use hype_edge.Decimal.Text.Format.{sign_text}
use hype_edge.Decimal.Text.Digits.{Bare, IsNumeral, all-append, trim_start-Bare_self}
use hype_edge.Decimal.Text.Parts.{FractionIs, significant, from_parts-eq}
use hype_edge.Decimal.Text.{from_str_strict, parse_decimal_string, with_sign, bare_int}
use hype_edge.Decimal.Text.Trimming.{plain, digit_plain, trim-plain}

-- The point and the digits after it.
abbrev pub point_text : Option CodePoints → CodePoints
point_text none = []
point_text (some frac) = b'.' ∷ frac

abbrev pub numeral_text : Bool → CodePoints → Option CodePoints → CodePoints
numeral_text neg int_part frac = sign_text neg ++ (int_part ++ point_text frac)

-- A fraction is absent or has digits.
abbrev pub HasDigits : Option CodePoints → Type 0
HasDigits none = Unit
HasDigits (some frac) = is_fraction frac ≡ true

int_loop-digits :
    (s : CodePoints) (frac : Option CodePoints)
    → all is_ascii_digit s ≡ true
    → HasDigits frac
    → int_loop (s ++ point_text frac) ≡ some (s, frac)
unfolding int_loop
int_loop-digits [] none h hf = refl
int_loop-digits [] (some frac) h hf = ground arith
int_loop-digits (c ∷ s) frac h hf = ground (arith, int_loop-digits s frac)

regex_zero :
    (frac : Option CodePoints)
    → HasDigits frac
    → regex_body_match (b'0' ∷ point_text frac) ≡ some (b'0' ∷ [], frac)
unfolding regex_body_match
regex_zero none hf = refl
regex_zero (some frac) hf = rw hf

regex_positive :
    (int_part : CodePoints) (frac : Option CodePoints)
    → all is_ascii_digit int_part ≡ true
    → int_part ≢ []
    → Bare is_zero_digit int_part
    → HasDigits frac
    → regex_body_match (int_part ++ point_text frac) ≡ some (int_part, frac)
unfolding regex_body_match
regex_positive [] frac digits shape bare hf = absurd (shape refl)
regex_positive (c ∷ s) frac digits shape bare hf = ground (arith, int_loop-digits s frac)

-- The scanner splits a numeral at its point.
regex-numeral :
    (int_part : CodePoints) (n : ℕ) (frac : Option CodePoints)
    → IsNumeral int_part n
    → HasDigits frac
    → regex_body_match (int_part ++ point_text frac) ≡ some (int_part, frac)
regex-numeral int_part zero frac h hf = rw (h.zero_text refl) (regex_zero frac hf)
regex-numeral int_part (suc n) frac h hf =
    regex_positive int_part frac h.digits h.shape (h.bare (ground arith)) hf

pub point_plain : (frac : Option CodePoints) → HasDigits frac → all plain (point_text frac) ≡ true
point_plain none hf = refl
point_plain (some frac) hf = digit_plain frac (ground arith)

pub strip_minus-sign :
    (neg : Bool) (s : CodePoints)
    → s ≢ []
    → all is_ascii_digit s ≡ true
    → (t : CodePoints) → strip_minus (sign_text neg ++ (s ++ t)) ≡ (s ++ t, neg)
unfolding strip_minus
strip_minus-sign true s shape h t = refl
strip_minus-sign false [] shape h t = absurd (shape refl)
strip_minus-sign false (c ∷ s) shape h t = ground arith

pub numeral-ne-nil : (neg : Bool) (s t : CodePoints) → s ≢ [] → sign_text neg ++ (s ++ t) ≢ []
numeral-ne-nil true s t shape e = cc
numeral-ne-nil false [] t shape e = shape refl
numeral-ne-nil false (c ∷ s) t shape e = cc

pub sign_plain :
    (neg : Bool) (s : CodePoints) → all plain s ≡ true → all plain (sign_text neg ++ s) ≡ true
sign_plain true s h = h
sign_plain false s h = h

parse-numeral :
    (before after : CodePoints) (neg : Bool) (int_part : CodePoints) (n : ℕ)
    (frac : Option CodePoints)
    → all is_whitespace before ≡ true
    → all is_whitespace after ≡ true
    → IsNumeral int_part n
    → HasDigits frac
    → parse_decimal_string (before ++ (numeral_text neg int_part frac ++ after))
      ≡ ok (neg, int_part, frac)
unfolding parse_decimal_string
parse-numeral before after neg int_part n frac hb ha h hf =
    let shape = numeral-ne-nil neg int_part (point_text frac) h.shape in
    let body = all-append plain int_part _ (digit_plain int_part h.digits) (point_plain frac hf) in
    let trimmed =
      trim-plain before (numeral_text neg int_part frac) after hb ha shape
        (sign_plain neg (int_part ++ point_text frac) body) in
    let stripped = strip_minus-sign neg int_part h.shape h.digits (point_text frac) in
    rw
      (
        trimmed,
        not_empty (numeral_text neg int_part frac) shape,
        stripped,
        regex-numeral int_part n frac h hf,
        trimmed,
        stripped,
      )
      refl
  where
    not_empty : (s : CodePoints) → s ≢ [] → is_empty s ≡ false
    not_empty [] shape = absurd (shape refl)
    not_empty (c ∷ s) shape = refl

pub bare_int-numeral : (s : CodePoints) (n : ℕ) → IsNumeral s n → bare_int s ≡ s
unfolding bare_int
bare_int-numeral s zero h = rw (h.zero_text refl)
bare_int-numeral [] (suc n) h = absurd (h.shape refl)
bare_int-numeral (c ∷ s) (suc n) h =
    rw (trim_start-Bare_self is_zero_digit (c ∷ s) (h.bare (ground arith))) refl

-- The raw value that is assembled, for a value whose integer part alone fits.
strict_wrapped :
    (before after : CodePoints) (neg : Bool) (int_part : CodePoints) (int : ℕ)
    (frac : Option CodePoints) (frac_value : ℕ)
    → all is_whitespace before ≡ true
    → all is_whitespace after ≡ true
    → IsNumeral int_part int
    → HasDigits frac
    → FractionIs frac frac_value
    → length int_part + significant frac ≤ 38
    → int * scale_unit < 2 ^ 127
    → from_str_strict (before ++ (numeral_text neg int_part frac ++ after))
      ≡ ok (with_sign neg (record { raw = wrap_i128 (pos (int * scale_unit + frac_value)) }))
unfolding from_str_strict
strict_wrapped before after neg int_part int frac frac_value hb ha h hf fraction count small =
    rw
      (
        parse-numeral before after neg int_part int frac hb ha h hf,
        from_parts-eq int frac_value int_part frac h.digits h.value fraction
            (rw (bare_int-numeral int_part int h) count) small,
      )
      refl

sign_fits :
    (neg : Bool) (n : ℕ)
    → n < 2 ^ 127
    → with_sign neg (record { raw = wrap_i128 (pos n) }) ≡ record { raw = signed neg n }
unfolding negate neg_ℤ
sign_fits neg n h = ground arith

-- For white space around an optional minus, an integer without leading zeros and a fraction of 1
-- to 18 digits or none, with at most 38 significant digits and a magnitude in units of 10^-18
-- below 2^127, the strict parser gives exactly the decimal that is written.
pub strict_exact :
    (before after : CodePoints) (neg : Bool) (int_part : CodePoints) (int : ℕ)
    (frac : Option CodePoints) (frac_value : ℕ)
    → all is_whitespace before ≡ true
    → all is_whitespace after ≡ true
    → IsNumeral int_part int
    → HasDigits frac
    → FractionIs frac frac_value
    → length int_part + significant frac ≤ 38
    → int * scale_unit + frac_value < 2 ^ 127
    → from_str_strict (before ++ (numeral_text neg int_part frac ++ after))
      ≡ ok (record { raw = signed neg (int * scale_unit + frac_value) })
strict_exact before after neg int_part int frac frac_value hb ha h hf fraction count small =
    let read =
      strict_wrapped before after neg int_part int frac frac_value hb ha h hf fraction count
        (omega arith) in
    read ∙ ap ok (sign_fits neg (int * scale_unit + frac_value) small)

wrap_negative : (n : ℕ) → 2 ^ 127 ≤ n → n < 2 ^ 128 → wrap_i128 (pos n) ≡ negsuc (2 ^ 128 - 1 - n)
wrap_negative n h k = ground arith

pub fraction_below :
    (frac : Option CodePoints) (value : ℕ) → FractionIs frac value → value < scale_unit
fraction_below none value h = omega arith
fraction_below (some frac) value h = h.below

-- For a text as the strict parser takes it, without a minus and with at most 38 significant
-- digits, whose integer part alone is in the i128 range but whose whole value in units of 10^-18
-- is not, the parser succeeds with a negative decimal, the value less 2^128.
pub strict_wraps :
    (before after : CodePoints) (int_part : CodePoints) (int : ℕ) (frac : Option CodePoints)
    (frac_value : ℕ)
    → all is_whitespace before ≡ true
    → all is_whitespace after ≡ true
    → IsNumeral int_part int
    → HasDigits frac
    → FractionIs frac frac_value
    → length int_part + significant frac ≤ 38
    → int * scale_unit < 2 ^ 127
    → 2 ^ 127 ≤ int * scale_unit + frac_value
    → from_str_strict (before ++ (numeral_text false int_part frac ++ after))
      ≡ ok (record { raw = negsuc (2 ^ 128 - 1 - (int * scale_unit + frac_value)) })
strict_wraps before after int_part int frac frac_value hb ha h hf fraction count small large =
    let total = int * scale_unit + frac_value in
    let read =
      strict_wrapped before after false int_part int frac frac_value hb ha h hf fraction count
        small in
    let bound : total < 2 ^ 128 = omega (arith, fraction_below frac frac_value fraction) in
    read ∙ ap (λ raw. ok (record { raw = raw })) (wrap_negative total large bound)
