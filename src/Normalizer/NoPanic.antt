-- ===== src/Normalizer/NoPanic.antt =====
-- Normalising never divides by zero where the steps are positive:
-- crates/trading/src/execution/normalizer.rs.
use Prim.Native.String.{String}
use hype_edge.Common.{◌≡◌, ◌≢◌, ap, Bool, true, false, not, Option, none, some, arith}
use hype_edge.Common.Result.{Result, ok, err, bind_avoids, guard, ◌>>=◌, ◌>>◌}
use hype_edge.Decimal.{Decimal, floor_to_step, is_zero, decimal_zero, mul}
use hype_edge.Decimal.Quotients.{div_total}
use hype_edge.Decimal.WideInteger.{Wide}
use hype_edge.Normalizer.Price.{IsFine, price_step-IsFine}
use hype_edge.Normalizer.{
  InstrumentSpec, NormalizeError, division_by_zero, rejected, floored, normalize_price,
  normalized_price, check_notional, check_post_only, normalize, normalize_to, price_step,
  is_at_most, is_below,
}
use hype_edge.Safety.{OrderIntent}

fine_nonzero : (d : Decimal) → IsFine d → is_zero d ≡ false
unfolding is_zero
fine_nonzero d (s, e, h, k) = ground (arith, ap (λ (x : Decimal). x.raw) e)

ok_ne_err {ℓ} :
    {A : Type ℓ} (a : A) → ◌≡◌ {A = Result NormalizeError A} (ok a) (err division_by_zero) → ⊥
ok_ne_err a h = cc

guard_rejects :
    (test : Bool) (symbol reason : String)
    → guard test (rejected symbol reason) ≢ err division_by_zero
guard_rejects true symbol reason h = cc
guard_rejects false symbol reason h = cc

module _ (w : Wide) where
  floored-total : (value step : Decimal) → IsFine step → floored w value step ≢ err division_by_zero
  unfolding floored floor_to_step
  floored-total value step fine h = ground (arith, div_total w value step (fine_nonzero step fine))

  normalized_price-total :
      (i : OrderIntent) (spec : InstrumentSpec) (p : Option Decimal)
      → IsFine spec.tick_size
      → normalized_price w i spec p ≢ err division_by_zero
  unfolding normalized_price normalize_price
  normalized_price-total i spec none fine h = cc
  normalized_price-total i spec (some p) fine h =
      bind_avoids _ (normalize_price w p spec) division_by_zero
        (floored-total p (price_step p spec) (price_step-IsFine p spec fine))
        (λ price later.
          bind_avoids _ (guard (not (is_at_most price decimal_zero)) _) division_by_zero
            (guard_rejects (not (is_at_most price decimal_zero)) i.symbol _)
            (λ u done. ok_ne_err (some price) done) later)
        h

  check_notional-total :
      (i : OrderIntent) (least : Option Decimal) (size : Decimal) (price : Option Decimal)
      → check_notional w i least size price ≢ err division_by_zero
  unfolding check_notional
  check_notional-total i none size price h = cc
  check_notional-total i (some least) size none h = cc
  check_notional-total i (some least) size (some price) h =
      guard_rejects (not (is_below (mul w size price) least)) i.symbol _ h

check_post_only-total :
    (i : OrderIntent) (price best_bid best_ask : Option Decimal)
    → check_post_only i price best_bid best_ask ≢ err division_by_zero
unfolding check_post_only
check_post_only-total i none best_bid best_ask h = cc
check_post_only-total i (some price) best_bid best_ask h = guard_rejects _ i.symbol _ h

module _ (w : Wide) (spec : InstrumentSpec) (i : OrderIntent)
    (best_bid best_ask : Option Decimal) where
  after_size :
      (size : Decimal)
      → IsFine spec.tick_size
      → (normalized_price w i spec i.price >>= λ price.
          check_notional w i spec.min_notional size price
          >> (check_post_only i price best_bid best_ask
              >> ok (record i { size = size; price = price })))
        ≢ err division_by_zero
  after_size size tick h =
      bind_avoids _ (normalized_price w i spec i.price) division_by_zero
        (normalized_price-total w i spec i.price tick)
        (λ price h1.
          bind_avoids _ (check_notional w i spec.min_notional size price) division_by_zero
            (check_notional-total w i spec.min_notional size price)
            (λ u h2.
              bind_avoids _ (check_post_only i price best_bid best_ask) division_by_zero
                (check_post_only-total i price best_bid best_ask)
                (λ u' done. ok_ne_err (record i { size = size; price = price }) done) h2)
            h1)
        h

  normalize_to-total :
      IsFine spec.lot_size
      → IsFine spec.tick_size
      → normalize_to w spec i best_bid best_ask ≢ err division_by_zero
  unfolding normalize_to
  normalize_to-total lot tick h =
      bind_avoids _ (floored w i.size spec.lot_size) division_by_zero
        (floored-total w i.size spec.lot_size lot)
        (λ size h1.
          bind_avoids _ (guard (not (is_below size spec.min_size)) _) division_by_zero
            (guard_rejects (not (is_below size spec.min_size)) i.symbol _)
            (λ u h2. after_size size tick h2) h1)
        h

-- Where the lot and the tick of an instrument are above 0 and at most 1, normalising an order
-- for it never divides by zero, whatever size and price are asked for.
pub normalize_total :
    (w : Wide) (instruments : String → Option InstrumentSpec) (spec : InstrumentSpec)
    (i : OrderIntent) (best_bid best_ask : Option Decimal)
    → instruments i.symbol ≡ some spec
    → IsFine spec.lot_size
    → IsFine spec.tick_size
    → normalize w instruments i best_bid best_ask ≢ err division_by_zero
unfolding normalize
normalize_total w instruments spec i best_bid best_ask known lot tick h =
    normalize_to-total w spec i best_bid best_ask lot tick (rw (known, normalize) at h)
