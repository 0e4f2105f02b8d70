-- ===== src/Decimal/Text/Digits.antt =====
-- Digits printed and read back: crates/domain/src/decimal.rs prints a fraction with `{:018}` and an
-- integer part with `{}`, and reads both by `parse`.
use mathlib.Core.Path.{subst}
use native.Mathlib.Nat.{pow-suc}
use hype_edge.Common.{
  ℕ, zero, suc, ◌+◌, ◌-◌, ◌*◌, ◌/◌, ◌%◌, ◌^◌, ◌≤◌, ◌<◌, ◌≡◌, refl, sym, ap, ◌∙◌, ◌≢◌, Bool, true,
  false, some, List, [], ◌∷◌, ◌++◌, inl, inr, arith, if◌then◌else◌, Bool-cases, length,
  length-append, all,
}
use hype_edge.Decimal.Text.Scan.{
  CodePoints, is_zero_digit, is_ascii_digit, is_empty, trim_start_matches, parse_digits,
}
use hype_edge.Decimal.Text.Format.{padded}

pub all-append {ℓ} :
    {A : Type ℓ} (p : A → Bool) (xs ys : List A)
    → all p xs ≡ true
    → all p ys ≡ true
    → all p (xs ++ ys) ≡ true
all-append p [] ys hx hy = hy
all-append p (x ∷ xs) ys hx hy = ground (arith, all-append p xs ys)

pub parse_digits-append :
    (acc : ℕ) (xs ys : CodePoints) (v : ℕ)
    → parse_digits acc xs ≡ some v
    → parse_digits acc (xs ++ ys) ≡ parse_digits v ys
unfolding parse_digits
parse_digits-append acc [] ys v h = ground arith
parse_digits-append acc (x ∷ xs) ys v h =
    ground (arith, parse_digits-append (acc * 10 + (x - b'0')) xs ys v)

digit_code : (n : ℕ) → is_ascii_digit (b'0' + n % 10) ≡ true
digit_code n = ground arith

pub all-padded : (k n : ℕ) → all is_ascii_digit (padded k n) ≡ true
unfolding padded
all-padded zero n = refl
all-padded (suc k) n =
    all-append is_ascii_digit (padded k (n / 10)) _ (all-padded k (n / 10)) (ground arith)

pub length-padded : (k n : ℕ) → length (padded k n) ≡ k
unfolding padded
length-padded zero n = refl
length-padded (suc k) n =
    omega
      (arith, length-append (padded k (n / 10)) ((b'0' + n % 10) ∷ []), length-padded k (n / 10))

-- Reading what `padded` prints gives the number, if it fits.
pub parse_digits-padded :
    (k n acc : ℕ) → n < 10 ^ k → parse_digits acc (padded k n) ≡ some (acc * 10 ^ k + n)
unfolding padded parse_digits
parse_digits-padded zero n acc h = ground arith
parse_digits-padded (suc k) n acc h =
    let small : n / 10 < 10 ^ k = omega (arith, rw (pow-suc 10 k) at h) in
    rw (parse_digits-append acc (padded k (n / 10)) _ _ (parse_digits-padded k (n / 10) acc small))
      (rw (pow-suc 10 k) (ground (arith, mul_last acc (10 ^ k) n)))
  where
    mul_last : (acc p n : ℕ) → (acc * p + n / 10) * 10 + n % 10 ≡ acc * (p * 10) + n
    mul_last acc p n = grind arith

-- Leading zeros do not count.
pub parse_digits-trim_start :
    (s : CodePoints) → parse_digits 0 (trim_start_matches is_zero_digit s) ≡ parse_digits 0 s
unfolding parse_digits trim_start_matches
parse_digits-trim_start [] = refl
parse_digits-trim_start (c ∷ s) = ground (arith, parse_digits-trim_start s)

pub all-trim_start :
    (p q : ℕ → Bool) (s : CodePoints) → all p s ≡ true → all p (trim_start_matches q s) ≡ true
unfolding trim_start_matches
all-trim_start p q [] h = refl
all-trim_start p q (c ∷ s) h = ground (arith, all-trim_start p q s)

-- What is left after trimming starts with a character that does not match.
abbrev pub Bare : (ℕ → Bool) → CodePoints → Type 0
Bare p [] = Unit
Bare p (c ∷ s) = p c ≡ false

pub trim_start-Bare : (p : ℕ → Bool) (s : CodePoints) → Bare p (trim_start_matches p s)
unfolding trim_start_matches
trim_start-Bare p [] = tt
trim_start-Bare p (c ∷ s) = elim (Bool-cases (p c)) [
  | inl match ↦ rw match (trim_start-Bare p s)
  | inr keep ↦ rw keep keep
]

pub trim_start-Bare_self : (p : ℕ → Bool) (s : CodePoints) → Bare p s → trim_start_matches p s ≡ s
unfolding trim_start_matches
trim_start-Bare_self p [] h = refl
trim_start-Bare_self p (c ∷ s) h = rw h

length-trim_start-snoc :
    (p : ℕ → Bool) (s : CodePoints) (c : ℕ)
    → length (trim_start_matches p (s ++ c ∷ [])) ≤ suc (length (trim_start_matches p s))
unfolding trim_start_matches
length-trim_start-snoc p [] c = ground arith
length-trim_start-snoc p (d ∷ s) c =
    ground (arith, length-trim_start-snoc p s c, length-append s (c ∷ []))

trim_start-snoc :
    (p : ℕ → Bool) (s : CodePoints) (c : ℕ)
    → trim_start_matches p s ≡ []
    → p c ≡ true
    → trim_start_matches p (s ++ c ∷ []) ≡ []
unfolding trim_start_matches
trim_start-snoc p [] c none_left h = rw h
trim_start-snoc p (d ∷ s) c none_left h = ground (arith, trim_start-snoc p s c)

trim_start-padded : (k : ℕ) → trim_start_matches is_zero_digit (padded k 0) ≡ []
unfolding padded trim_start_matches
trim_start-padded zero = refl
trim_start-padded (suc k) =
    trim_start-snoc is_zero_digit (padded k 0) b'0' (trim_start-padded k) refl

-- A number below 10^j has at most j digits.
pub length-trim_start-padded :
    (k j n : ℕ) → n < 10 ^ j → length (trim_start_matches is_zero_digit (padded k n)) ≤ j
unfolding padded
length-trim_start-padded zero j n h = unfold trim_start_matches in omega arith
length-trim_start-padded (suc k) zero n h =
    let none_left : n ≡ 0 = omega arith in
    subst (λ m. length (trim_start_matches is_zero_digit (padded (suc k) m)) ≤ 0) (sym none_left)
      (omega (arith, ap length (trim_start-padded (suc k))))
length-trim_start-padded (suc k) (suc j) n h = omega (
  arith,
  length-trim_start-snoc is_zero_digit (padded k (n / 10)) (b'0' + n % 10),
  length-trim_start-padded k j (n / 10) (omega (arith, rw (pow-suc 10 j) at h)),
)

-- A number without leading zeros: a single 0, or digits of which the first is not 0.
pub record IsNumeral (s : CodePoints) (n : ℕ) : Type 0 where
  pub digits : all is_ascii_digit s ≡ true
  pub value : parse_digits 0 s ≡ some n
  pub shape : s ≢ []
  pub bare : (n ≢ 0) → Bare is_zero_digit s
  pub zero_text : n ≡ 0 → s ≡ b'0' ∷ []

parse_digits-ge : (acc n : ℕ) (s : CodePoints) → parse_digits acc s ≡ some n → acc ≤ n
unfolding parse_digits
parse_digits-ge acc n [] h = ground arith
parse_digits-ge acc n (c ∷ s) h = ground (arith, parse_digits-ge (acc * 10 + (c - b'0')) n s)

positive :
    (c : ℕ) (s : CodePoints) (n : ℕ)
    → n ≡ 0
    → is_ascii_digit c ≡ true
    → parse_digits 0 (c ∷ s) ≡ some n
    → is_zero_digit c ≡ false
    → ⊥
unfolding parse_digits
positive c s n e digit value bare = ground (arith, parse_digits-ge (c - b'0') n s)

Bare-IsNumeral :
    (t : CodePoints) (n : ℕ)
    → all is_ascii_digit t ≡ true
    → parse_digits 0 t ≡ some n
    → Bare is_zero_digit t
    → IsNumeral (if is_empty t then b'0' ∷ [] else t) n
unfolding parse_digits
Bare-IsNumeral [] n digits value bare = record {
  digits = refl;
  value = ground arith;
  shape = λ e. cc;
  bare = λ h. absurd (ground (arith, h));
  zero_text = λ e. refl;
}
Bare-IsNumeral (c ∷ t) n digits value bare = record {
  digits = digits;
  value = value;
  shape = λ e. cc;
  bare = λ h. bare;
  zero_text = λ e. absurd (positive c t n e (ground arith) value bare);
}

-- Digits without their leading zeros are a numeral for the same number.
pub trimmed-IsNumeral :
    (s : CodePoints) (n : ℕ)
    → all is_ascii_digit s ≡ true
    → parse_digits 0 s ≡ some n
    → let t = trim_start_matches is_zero_digit s in
      IsNumeral (if is_empty t then b'0' ∷ [] else t) n
trimmed-IsNumeral s n digits value =
    Bare-IsNumeral (trim_start_matches is_zero_digit s) n
      (all-trim_start is_ascii_digit is_zero_digit s digits) (parse_digits-trim_start s ∙ value)
      (trim_start-Bare is_zero_digit s)
