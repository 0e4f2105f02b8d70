-- ===== src/Decimal/Text/Trimming.antt =====
-- White space around a text of digits, a sign and a point: crates/domain/src/decimal.rs trims it.
use hype_edge.Common.{ℕ, ◌≡◌, refl, ◌≢◌, Bool, true, false, ◌||◌, [], ◌∷◌, ◌++◌, arith, ◌==◌, all}
use hype_edge.Decimal.Text.Scan.{
  CodePoints, is_ascii_digit, is_whitespace, trim, trim_start_matches, trim_end_matches,
}
use hype_edge.Decimal.Text.Digits.{Bare, trim_start-Bare_self}

abbrev pub plain : ℕ → Bool
plain c = is_ascii_digit c || (c == b'-') || (c == b'.')

plain_visible : (c : ℕ) → plain c ≡ true → is_whitespace c ≡ false
unfolding is_whitespace
plain_visible c h = ground arith

pub digit_plain : (s : CodePoints) → all is_ascii_digit s ≡ true → all plain s ≡ true
digit_plain [] h = refl
digit_plain (c ∷ s) h = ground (arith, digit_plain s)

trim_start-append :
    (ws t : CodePoints)
    → all is_whitespace ws ≡ true
    → Bare is_whitespace t
    → trim_start_matches is_whitespace (ws ++ t) ≡ t
unfolding trim_start_matches
trim_start-append [] t h bare =
    unfold trim_start_matches in trim_start-Bare_self is_whitespace t bare
trim_start-append (c ∷ ws) t h bare = ground (arith, trim_start-append ws t)

trim_end-all : (p : ℕ → Bool) (ws : CodePoints) → all p ws ≡ true → trim_end_matches p ws ≡ []
unfolding trim_end_matches
trim_end-all p [] h = refl
trim_end-all p (c ∷ ws) h = ground (arith, trim_end-all p ws)

trim_end-append :
    (t ws : CodePoints)
    → all plain t ≡ true
    → all is_whitespace ws ≡ true
    → trim_end_matches is_whitespace (t ++ ws) ≡ t
unfolding trim_end_matches
trim_end-append [] ws h blank = trim_end-all is_whitespace ws blank
trim_end-append (c ∷ t) ws h blank = ground (arith, trim_end-append t ws, plain_visible c)

-- Trimming takes off the white space around a text without any.
pub trim-plain :
    (before t after : CodePoints)
    → all is_whitespace before ≡ true
    → all is_whitespace after ≡ true
    → t ≢ []
    → all plain t ≡ true
    → trim (before ++ (t ++ after)) ≡ t
unfolding trim
trim-plain before [] after hb ha shape h = absurd (shape refl)
trim-plain before (c ∷ t) after hb ha shape h =
    rw (trim_start-append before (c ∷ (t ++ after)) hb (plain_visible c (ground arith)))
      (trim_end-append (c ∷ t) after h ha)
