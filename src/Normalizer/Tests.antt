-- ===== src/Normalizer/Tests.antt =====
-- Runs of crates/trading/src/execution/normalizer.rs, and its theorems at concrete orders.
use Prim.Native.String.{String}
use hype_edge.Common.{ℕ, ◌*◌, ◌≡◌, ◌≢◌, refl, false, Option, none, some, arith}
use hype_edge.Common.Result.{ok, err}
use hype_edge.Common.Int.{pos, negsuc, ◌+ℤ◌, ◌-ℤ◌, ◌*ℤ◌, ◌/ℤ◌, ◌%ℤ◌}
use hype_edge.Order.{buy, OrderType, TimeInForce, gtc, alo}
use hype_edge.Safety.{OrderIntent}
use hype_edge.Decimal.{Decimal, floor_to_step, as_tuple, max}
use hype_edge.Decimal.Steps.{positive}
use hype_edge.Decimal.WideInteger.{exact_wide}
use hype_edge.Decimal.Text.Scan.{is_whitespace}
use hype_edge.Decimal.Text.Format.{print_u128}
use hype_edge.Decimal.Text.Lenient.{from_str_lenient}
use hype_edge.Normalizer.{
  InstrumentSpec, rejected, division_by_zero, normalize, normalize_to, normalized_price,
  normalize_price, price_step, allowed_decimals, clamp_decimals, dynamic_step, adjusted, floored,
  check_notional, check_post_only, would_cross,
}
use hype_edge.Normalizer.Soundness.{IsNormalized, normalize-IsNormalized}
use hype_edge.Normalizer.NoPanic.{normalize_total}

-- Thousandths of a unit.
abbrev milli : ℕ → Decimal
milli n = positive (n * 1_000_000_000_000_000)

abbrev spec : Option ℕ → InstrumentSpec
spec decimals = record {
  symbol = "BTC";
  tick_size = milli 10;
  lot_size = milli 1;
  min_size = milli 1;
  min_notional = some (milli 10_000);
  max_price_decimals = decimals;
  max_significant_figures = 5;
}

abbrev instruments : Option ℕ → String → Option InstrumentSpec
instruments decimals symbol = some (spec decimals)

abbrev intent : ℕ → ℕ → TimeInForce → OrderIntent
intent price size tif = record {
  symbol = "BTC";
  side = buy;
  size = positive size;
  price = some (milli price);
  order_type = OrderType.limit;
  time_in_force = tif;
  strategy_id = none;
  sub_account = none;
  is_reduce_only = false;
  cloid = none;
  client_id = none;
  is_spot = false;
  risk_reducing = false;
  max_slippage_bps = 50;
}

adjusted_examples :
    (adjusted (milli 65_000_000) ≡ pos 4)
    × (adjusted (milli 123_450) ≡ pos 2)
    × (adjusted (positive 1_230_000_000_000_000) ≡ negsuc 2)
    × (adjusted (record { raw = negsuc 499_999_999_999_999_999 }) ≡ negsuc 0)
unfolding adjusted
adjusted_examples = (refl, refl, refl, refl)

-- 1.2345 at 65000.55 becomes 1.234 at 65000: five significant figures leave no decimals.
five_figures :
    normalize exact_wide
      (instruments (some 4))
      (intent 65_000_550 1_234_500_000_000_000_000 gtc)
      none
      none
    ≡ ok (intent 65_000_000 1_234_000_000_000_000_000 gtc)
unfolding normalize normalize_to floored floor_to_step ◌+ℤ◌ ◌*ℤ◌ normalized_price normalize_price
    price_step check_notional check_post_only would_cross as_tuple ◌/ℤ◌ ◌%ℤ◌ allowed_decimals
    clamp_decimals adjusted ◌-ℤ◌ dynamic_step from_str_lenient is_whitespace print_u128 max
five_figures = refl

crossing :
    normalize exact_wide
      (instruments none)
      (intent 100_000 1_000_000_000_000_000_000 alo)
      none
      (some (milli 99_900))
    ≡ err (rejected "BTC" "post_only_would_cross")
unfolding normalize normalize_to floored floor_to_step ◌+ℤ◌ ◌*ℤ◌ normalized_price normalize_price
    price_step check_notional check_post_only would_cross
crossing = refl

normalize-IsNormalized_example :
    IsNormalized exact_wide
      (spec none)
      (intent 100_557 1_234_500_000_000_000_000 gtc)
      none
      none
      (intent 100_550 1_234_000_000_000_000_000 gtc)
unfolding normalize normalize_to floored floor_to_step ◌+ℤ◌ ◌*ℤ◌ normalized_price normalize_price
    price_step check_notional check_post_only
normalize-IsNormalized_example =
    normalize-IsNormalized exact_wide (instruments none) (spec none)
      (intent 100_557 1_234_500_000_000_000_000 gtc) none none
      (intent 100_550 1_234_000_000_000_000_000 gtc) refl
      (1_000_000_000_000_000, refl, omega arith, omega arith)
      (10_000_000_000_000_000, refl, omega arith, omega arith)
      (1_234_500_000_000_000_000, refl, omega arith)
      (100_557_000_000_000_000_000, refl, omega arith) refl

normalize_total_example :
    normalize exact_wide (instruments none) (intent 5 1_000 gtc) none none ≢ err division_by_zero
normalize_total_example =
    normalize_total exact_wide (instruments none) (spec none) (intent 5 1_000 gtc) none none refl
      (1_000_000_000_000_000, refl, omega arith, omega arith)
      (10_000_000_000_000_000, refl, omega arith, omega arith)
