-- ===== src/Decimal/Text/Scan.antt =====
-- The text functions of the standard library that crates/domain/src/decimal.rs calls, on code
-- points, and the scanner `regex_body_match`.
use hype_edge.Common.{
  ℕ, zero, suc, ◌+◌, ◌-◌, ◌*◌, ◌^◌, Bool, true, false, ◌&&◌, ◌||◌, Option, none, some, List, [],
  ◌∷◌, leb, ◌==◌, if◌then◌else◌, all,
}
use hype_edge.Common.Int.{ℤ, signed}

abbrev pub CodePoints : Type 0
CodePoints = List ℕ

abbrev pub is_zero_digit : ℕ → Bool
is_zero_digit c = c == b'0'

abbrev pub is_ascii_digit : ℕ → Bool
is_ascii_digit c = leb b'0' c && leb c b'9'

-- Unicode's White_Space.
unfoldable pub is_whitespace : ℕ → Bool
is_whitespace c =
    (leb 9 c && leb c 13)
    || (c == 32)
    || (c == 133)
    || (c == 160)
    || (c == 5760)
    || (leb 8192 c && leb c 8202)
    || (c == 8232)
    || (c == 8233)
    || (c == 8239)
    || (c == 8287)
    || (c == 12288)

abbrev pub is_empty : CodePoints → Bool
is_empty [] = true
is_empty (c ∷ s) = false

unfoldable pub trim_start_matches : (ℕ → Bool) → CodePoints → CodePoints
trim_start_matches p [] = []
trim_start_matches p (c ∷ s) = if p c then trim_start_matches p s else c ∷ s

-- A character before a kept one is kept.
abbrev pub keep_before : (ℕ → Bool) → ℕ → CodePoints → CodePoints
keep_before p c [] = if p c then [] else c ∷ []
keep_before p c (d ∷ kept) = c ∷ d ∷ kept

unfoldable pub trim_end_matches : (ℕ → Bool) → CodePoints → CodePoints
trim_end_matches p [] = []
trim_end_matches p (c ∷ s) = keep_before p c (trim_end_matches p s)

unfoldable pub trim : CodePoints → CodePoints
unfolding trim_start_matches trim_end_matches
trim s = trim_end_matches is_whitespace (trim_start_matches is_whitespace s)

-- The text of n copies of a character.
unfoldable pub repeat : ℕ → ℕ → CodePoints
repeat c zero = []
repeat c (suc n) = c ∷ repeat c n

-- `split_once`: what stands before the first match, and after it if there is one.
unfoldable pub split_once : (ℕ → Bool) → CodePoints → CodePoints × Option CodePoints
split_once p [] = ([], none)
split_once p (c ∷ s) =
    let rest = split_once p s in if p c then ([], some s) else (c ∷ rest.0, rest.1)

-- The value of digits after the value of those before them.
unfoldable pub parse_digits : ℕ → CodePoints → Option ℕ
parse_digits acc [] = some acc
parse_digits acc (c ∷ s) = if is_ascii_digit c then parse_digits (acc * 10 + (c - b'0')) s else none

unfoldable pub parse_magnitude : Bool → ℕ → CodePoints → Option ℤ
unfolding parse_digits
parse_magnitude neg limit [] = none
parse_magnitude neg limit (c ∷ s) = elim (parse_digits 0 (c ∷ s)) [
  | some v ↦ if leb v limit then some (signed neg v) else none
  | none ↦ none
]

-- `parse` at a signed type that holds -half to half - 1: an optional sign and digits.
unfoldable pub parse_signed : ℕ → CodePoints → Option ℤ
unfolding parse_magnitude
parse_signed half [] = none
parse_signed half (c ∷ s) =
    if c == b'-'
    then parse_magnitude true half s
    else if c == b'+'
    then parse_magnitude false (half - 1) s
    else parse_magnitude false (half - 1) (c ∷ s)

unfoldable pub parse_i128 : CodePoints → Option ℤ
unfolding parse_signed
parse_i128 s = parse_signed (2 ^ 127) s

unfoldable pub parse_i32 : CodePoints → Option ℤ
unfolding parse_signed
parse_i32 s = parse_signed (2 ^ 31) s

-- `strip_prefix('-')`: the rest, and whether there was one.
unfoldable pub strip_minus : CodePoints → CodePoints × Bool
strip_minus [] = ([], false)
strip_minus (c ∷ s) = if c == b'-' then (s, true) else (c ∷ s, false)

-- The digits after a point: at least one, and nothing else.
abbrev pub is_fraction : CodePoints → Bool
is_fraction s = if is_empty s then false else all is_ascii_digit s

-- The loop over the characters after a first digit from 1 to 9.
unfoldable pub int_loop : CodePoints → Option (CodePoints × Option CodePoints)
int_loop [] = some ([], none)
int_loop (c ∷ s) =
    let rest = int_loop s in
    if is_ascii_digit c
    then elim rest [ some parts ↦ some (c ∷ parts.0, parts.1) | none ↦ none ]
    else if c == b'.'
    then (if is_fraction s then some ([], some s) else none)
    else none

-- What may follow a first digit 0.
unfoldable pub after_zero : CodePoints → Option (CodePoints × Option CodePoints)
after_zero [] = some (b'0' ∷ [], none)
after_zero (c ∷ frac) =
    if c == b'.' then (if is_fraction frac then some (b'0' ∷ [], some frac) else none) else none

unfoldable pub regex_body_match : CodePoints → Option (CodePoints × Option CodePoints)
unfolding int_loop after_zero
regex_body_match [] = none
regex_body_match (first ∷ rest) =
    if is_ascii_digit first
    then (if first == b'0'
        then after_zero rest
        else elim (int_loop rest) [ some parts ↦ some (first ∷ parts.0, parts.1) | none ↦ none ])
    else none
