-- ===== src/Normalizer.antt =====
-- Orders normalised to an instrument's rules before risk admission:
-- crates/trading/src/execution/normalizer.rs. An error holds the symbol and the reason; the message,
-- which is made from the same values, is left out. The instrument provider is a parameter.
pub mod Price
pub mod Soundness
pub mod NoPanic
mod Tests
use Prim.Native.String.{String}
use hype_edge.Common.{
  ℕ, suc, ◌+◌, ◌-◌, ◌%◌, ◌^◌, Bool, true, false, not, ◌&&◌, Option, none, some, [], ◌∷◌, ltb, leb,
  ◌==◌, if◌then◌else◌, length, any,
}
use hype_edge.Common.Result.{Result, ok, err, ◌>>=◌, ◌>>◌, guard}
use hype_edge.Common.Int.{
  ℤ, pos, negsuc, ◌-ℤ◌, leb_ℤ, ltb_ℤ, max_ℤ, min_ℤ, pos_part, neg_part, magnitude, neg,
}
use hype_edge.Order.{Side, buy, sell, TimeInForce, gtc, ioc, alo, gtx}
use hype_edge.Safety.{OrderIntent}
use hype_edge.Decimal.{Decimal, floor_to_step, as_tuple, is_zero, mul, max, decimal_zero}
use hype_edge.Decimal.WideInteger.{Wide}
use hype_edge.Decimal.Text.Scan.{
  CodePoints, is_empty, is_zero_digit, split_once, trim_start_matches,
}
use hype_edge.Decimal.Text.Format.{to_exact_string, print_u128}
use hype_edge.Decimal.Text.Lenient.{from_str_lenient, is_point}

pub record InstrumentSpec : Type 0 where
  pub symbol : String
  pub tick_size : Decimal
  pub lot_size : Decimal
  pub min_size : Decimal
  pub min_notional : Option Decimal
  pub max_price_decimals : Option ℕ
  pub max_significant_figures : ℕ

unfoldable pub new : String → Decimal → Decimal → Decimal → InstrumentSpec
new symbol tick_size lot_size min_size = record {
  symbol = symbol;
  tick_size = tick_size;
  lot_size = lot_size;
  min_size = min_size;
  min_notional = none;
  max_price_decimals = none;
  max_significant_figures = 5;
}

abbrev pub is_at_most : Decimal → Decimal → Bool
is_at_most a b = leb_ℤ a.raw b.raw

abbrev pub is_below : Decimal → Decimal → Bool
is_below a b = ltb_ℤ a.raw b.raw

abbrev pub holds : Option Decimal → (Decimal → Bool) → Bool
holds none test = false
holds (some d) test = test d

unfoldable pub validate : InstrumentSpec → Result String (Unit {0})
validate s = do
  guard (not (is_at_most s.tick_size decimal_zero)) "tick_size must be positive"
  guard (not (is_at_most s.lot_size decimal_zero)) "lot_size must be positive"
  guard (not (is_at_most s.min_size decimal_zero)) "min_size must be positive"
  guard (not (holds s.min_notional (λ m. is_at_most m decimal_zero)))
      "min_notional must be positive when configured"
  guard (not (s.max_significant_figures == 0)) "max_significant_figures must be positive"

-- `rejected` has the symbol and the reason; a zero step panics in `Decimal::div`.
pub data NormalizeError : Type 0 where
  rejected : String → String → NormalizeError
  division_by_zero : NormalizeError

-- A u32 cast to i32, and i32 arithmetic without overflow checks.
abbrev pub as_i32 : ℤ → ℤ
as_i32 a =
    let bits = (pos_part a + (2 ^ 32 - neg_part a % 2 ^ 32)) % 2 ^ 32 in
    if ltb bits (2 ^ 31) then pos bits else negsuc (2 ^ 32 - 1 - bits)

-- The leading zeros.
unfoldable pub leading_zeros : CodePoints → ℕ
leading_zeros [] = 0
leading_zeros (c ∷ s) = let rest = leading_zeros s in if is_zero_digit c then suc rest else 0

abbrev pub is_text_zero : CodePoints → Bool
is_text_zero (c ∷ []) = c == b'0'
is_text_zero s = false

-- The exponent of the most significant digit, by the text's parts before and after the point.
unfoldable pub adjusted_parts : CodePoints → Option CodePoints → ℤ
unfolding leading_zeros trim_start_matches ◌-ℤ◌ neg
adjusted_parts int_part none = pos (length int_part) -ℤ pos 1
adjusted_parts int_part (some frac_part) =
    if not (is_empty int_part) && not (is_text_zero int_part)
    then pos (length (trim_start_matches is_zero_digit int_part)) -ℤ pos 1
    else (let zeros = leading_zeros frac_part in
        if zeros == 0 then negsuc 0 else neg (pos zeros) -ℤ pos 1)

abbrev is_sign : ℕ → Bool
is_sign c = if c == b'-' then true else c == b'+'

unfoldable pub adjusted : Decimal → ℤ
unfolding is_zero to_exact_string split_once trim_start_matches adjusted_parts
adjusted d =
    if is_zero d
    then pos 0
    else (let parts = split_once is_point (trim_start_matches is_sign (to_exact_string d)) in
        adjusted_parts parts.0 parts.1)

-- `clamp(0, 18)`.
unfoldable pub clamp_decimals : ℤ → ℕ
clamp_decimals a = magnitude (min_ℤ (max_ℤ a (pos 0)) (pos 18))

unfoldable pub allowed_decimals : Decimal → ℕ → ℕ → ℕ
allowed_decimals value max_decimals max_figures =
    let figures = as_i32 (pos (if leb max_figures 1 then 1 else max_figures)) in
    let by_figures = max_ℤ (as_i32 (as_i32 (figures -ℤ adjusted value) -ℤ pos 1)) (pos 0) in
    clamp_decimals (min_ℤ (as_i32 (pos max_decimals)) by_figures)

-- `Decimal::from_str_lenient(&format!("1e-{n}")).unwrap_or(tick_size)`.
unfoldable pub dynamic_step : Decimal → ℕ → Decimal
dynamic_step tick_size n = elim (from_str_lenient (b'1' ∷ b'e' ∷ b'-' ∷ print_u128 n)) [
  | ok step ↦ step
  | err e ↦ tick_size
]

unfoldable pub price_step : Decimal → InstrumentSpec → Decimal
price_step value spec = elim spec.max_price_decimals [
  | none ↦ spec.tick_size
  | some max_decimals ↦
      if leb_ℤ (pos 0) (as_tuple value).1
      then spec.tick_size
      else max spec.tick_size (
          dynamic_step spec.tick_size
            (allowed_decimals value max_decimals spec.max_significant_figures))
]

module _ (w : Wide) where
  unfoldable pub floored : Decimal → Decimal → Result NormalizeError Decimal
  floored value step = elim (floor_to_step w value step) [
    | some d ↦ ok d
    | none ↦ err division_by_zero
  ]

  unfoldable pub normalize_price : Decimal → InstrumentSpec → Result NormalizeError Decimal
  normalize_price value spec = floored value (price_step value spec)

  unfoldable pub normalized_price :
      OrderIntent → InstrumentSpec → Option Decimal → Result NormalizeError (Option Decimal)
  normalized_price i spec none = ok none
  normalized_price i spec (some p) = do
    price ← normalize_price p spec
    guard (not (is_at_most price decimal_zero)) (rejected i.symbol "price_not_positive")
    ok (some price)

  unfoldable pub check_notional :
      OrderIntent → Option Decimal → Decimal → Option Decimal → Result NormalizeError (Unit {0})
  check_notional i none size price = ok tt
  check_notional i (some min_notional) size none =
      err (rejected i.symbol "reference_price_required")
  check_notional i (some min_notional) size (some price) =
      guard (not (is_below (mul w size price) min_notional))
        (rejected i.symbol "notional_below_minimum")

abbrev pub is_post_only : TimeInForce → Bool
is_post_only alo = true
is_post_only gtx = true
is_post_only gtc = false
is_post_only ioc = false

-- Whether a price would cross the other side of the book.
unfoldable pub would_cross : Side → Decimal → Option Decimal → Option Decimal → Bool
would_cross buy price best_bid best_ask = holds best_ask (λ ask. is_at_most ask price)
would_cross sell price best_bid best_ask = holds best_bid (λ bid. is_at_most price bid)

unfoldable pub check_post_only :
    OrderIntent
    → Option Decimal
    → Option Decimal
    → Option Decimal
    → Result NormalizeError (Unit {0})
check_post_only i none best_bid best_ask = ok tt
check_post_only i (some price) best_bid best_ask =
    guard (not (is_post_only i.time_in_force && would_cross i.side price best_bid best_ask))
      (rejected i.symbol "post_only_would_cross")

-- What follows the lookup of the instrument.
unfoldable pub normalize_to :
    Wide
    → InstrumentSpec
    → OrderIntent
    → Option Decimal
    → Option Decimal
    → Result NormalizeError OrderIntent
normalize_to w spec i best_bid best_ask = do
  size ← floored w i.size spec.lot_size
  guard (not (is_below size spec.min_size)) (rejected i.symbol "size_below_minimum")
  price ← normalized_price w i spec i.price
  check_notional w i spec.min_notional size price
  check_post_only i price best_bid best_ask
  ok (record i { size = size; price = price })

unfoldable pub normalize :
    Wide
    → (String → Option InstrumentSpec)
    → OrderIntent
    → Option Decimal
    → Option Decimal
    → Result NormalizeError OrderIntent
normalize w instruments i best_bid best_ask = elim (instruments i.symbol) [
  | some spec ↦ normalize_to w spec i best_bid best_ask
  | none ↦ err (rejected i.symbol "instrument_meta_unavailable")
]
