-- ===== src/Normalizer/Soundness.antt =====
-- What a normalised order satisfies: crates/trading/src/execution/normalizer.rs,
-- `OrderNormalizer::normalize`.
use mathlib.Core.Path.{subst}
use hype_edge.Common.{
  ℕ, ◌*◌, ◌^◌, ◌<◌, ◌≤◌, ◌≡◌, refl, sym, ap₂, ◌∙◌, Bool, true, false, not, ◌&&◌, Option, none, some,
  arith,
}
use hype_edge.Common.Result.{Result, ok, err, bind_ok, guard}
use hype_edge.Decimal.{Decimal, mul, floor_to_step, decimal_zero}
use hype_edge.Decimal.Steps.{positive, steps_below, steps-le, floor_to_step-eq}
use hype_edge.Decimal.WideInteger.{Wide}
use hype_edge.Normalizer.Price.{IsFine, price_step-IsFine}
use hype_edge.Normalizer.{
  InstrumentSpec, NormalizeError, floored, normalize_price, normalized_price, check_notional,
  check_post_only, would_cross, is_post_only, normalize, normalize_to, price_step, is_at_most,
  is_below,
}
use hype_edge.Safety.{OrderIntent}
use Prim.Native.String.{String}

-- A value floored to a step: the greatest multiple of the step up to the value, where the number of
-- steps is at most that of the integers of a decimal.
abbrev pub IsFloored : Decimal → Decimal → Decimal → Type 0
IsFloored value step result =
    (v : ℕ) × (s : ℕ) × (value ≡ positive v)
    × (step ≡ positive s)
    × (result ≡ positive (steps_below v s * s))
    × (steps_below v s * s ≤ v)

-- A positive value of the i128 range, or zero.
abbrev pub IsAmount : Decimal → Type 0
IsAmount d = (v : ℕ) × (d ≡ positive v) × (v < 2 ^ 127)

abbrev pub PriceFits : InstrumentSpec → Option Decimal → Option Decimal → Type 0
PriceFits spec none none = Unit
PriceFits spec none (some price) = ⊥
PriceFits spec (some p) none = ⊥
PriceFits spec (some p) (some price) =
    IsFloored p (price_step p spec) price × (is_at_most price decimal_zero ≡ false)

abbrev pub PriceIsAmount : Option Decimal → Type 0
PriceIsAmount none = Unit
PriceIsAmount (some p) = IsAmount p

floored-some :
    (o : Option Decimal) (d : Decimal)
    → elim o [ some q ↦ ok q | none ↦ err NormalizeError.division_by_zero ] ≡ ok d
    → o ≡ some d
floored-some none d h = absurd (cc)
floored-some (some q) d h = ground (arith, h)

guarded :
    (test : Bool) (e : NormalizeError) (u : Unit {0}) → guard (not test) e ≡ ok u → test ≡ false
guarded true e u h = absurd (cc)
guarded false e u h = refl

ok_eq {ℓ} : {A : Type ℓ} (a b : A) → ◌≡◌ {A = Result NormalizeError A} (ok a) (ok b) → a ≡ b
ok_eq a b h = cc

some_eq : (a b : Decimal) → some a ≡ some b → a ≡ b
some_eq a b h = cc

module _ (w : Wide) where
  -- The notional value reaches the minimum, where there is one.
  abbrev pub NotionalFits : Option Decimal → Decimal → Option Decimal → Type 0
  NotionalFits none size price = Unit
  NotionalFits (some least) size none = ⊥
  NotionalFits (some least) size (some price) = is_below (mul w size price) least ≡ false

  floored-IsFloored :
      (value step d : Decimal)
      → IsAmount value
      → IsFine step
      → floored w value step ≡ ok d
      → IsFloored value step d
  unfolding floored
  floored-IsFloored value step d (v, hv, fits) (s, hs, positive_s, small) h =
      let exact = ap₂ (floor_to_step w) hv hs ∙ floor_to_step-eq w v s fits positive_s small in
      let result = some_eq _ _ (sym (floored-some (floor_to_step w value step) d h) ∙ exact) in
      (v, s, hv, hs, result, steps-le v s)

  normalized_price-fits :
      (i : OrderIntent) (spec : InstrumentSpec) (p price : Option Decimal)
      → PriceIsAmount p
      → IsFine spec.tick_size
      → normalized_price w i spec p ≡ ok price
      → PriceFits spec p price
  unfolding normalized_price normalize_price
  normalized_price-fits i spec none price amount fine h =
      subst (PriceFits spec none) (ok_eq none price h) tt
  normalized_price-fits i spec (some p) price amount fine h =
      let (d, step, later) = bind_ok _ (normalize_price w p spec) h in
      let (u, checked, same) = bind_ok _ (guard (not (is_at_most d decimal_zero)) _) later in
      subst (PriceFits spec (some p)) (ok_eq (some d) price same) (
        floored-IsFloored p (price_step p spec) d amount (price_step-IsFine p spec fine) step,
        guarded (is_at_most d decimal_zero) _ u checked,
      )

  check_notional-fits :
      (i : OrderIntent) (least : Option Decimal) (size : Decimal) (price : Option Decimal)
      (u : Unit {0})
      → check_notional w i least size price ≡ ok u
      → NotionalFits least size price
  unfolding check_notional
  check_notional-fits i none size price u h = tt
  check_notional-fits i (some least) size none u h = absurd (cc)
  check_notional-fits i (some least) size (some price) u h =
      guarded (is_below (mul w size price) least) _ u h

-- A post-only order does not cross.
abbrev pub IsPassive : OrderIntent → Option Decimal → Option Decimal → Option Decimal → Type 0
IsPassive i none best_bid best_ask = Unit
IsPassive i (some price) best_bid best_ask =
    (is_post_only i.time_in_force && would_cross i.side price best_bid best_ask) ≡ false

check_post_only-IsPassive :
    (i : OrderIntent) (price best_bid best_ask : Option Decimal) (u : Unit {0})
    → check_post_only i price best_bid best_ask ≡ ok u
    → IsPassive i price best_bid best_ask
unfolding check_post_only
check_post_only-IsPassive i none best_bid best_ask u h = tt
check_post_only-IsPassive i (some price) best_bid best_ask u h =
    guarded (is_post_only i.time_in_force && would_cross i.side price best_bid best_ask) _ u h

-- What the normalised order satisfies, and that nothing else of the order changes.
pub record IsNormalized (w : Wide) (spec : InstrumentSpec) (i : OrderIntent)
    (best_bid best_ask : Option Decimal) (r : OrderIntent) : Type 0 where
  pub size : IsFloored i.size spec.lot_size r.size
  pub reaches_minimum : is_below r.size spec.min_size ≡ false
  pub price : PriceFits spec i.price r.price
  pub notional : NotionalFits w spec.min_notional r.size r.price
  pub passive : IsPassive i r.price best_bid best_ask
  pub kept : r ≡ record i { size = r.size; price = r.price }

module _ (w : Wide) (spec : InstrumentSpec) (i : OrderIntent) (best_bid best_ask : Option Decimal)
    (r : OrderIntent) where
  normalize_to-IsNormalized :
      IsFine spec.lot_size
      → IsFine spec.tick_size
      → IsAmount i.size
      → PriceIsAmount i.price
      → normalize_to w spec i best_bid best_ask ≡ ok r
      → IsNormalized w spec i best_bid best_ask r
  unfolding normalize_to
  normalize_to-IsNormalized lot tick size_ok price_ok h =
      let (size, floor_step, h1) = bind_ok _ (floored w i.size spec.lot_size) h in
      let (u, size_checked, h2) = bind_ok _ (guard (not (is_below size spec.min_size)) _) h1 in
      let (price, price_step, h3) = bind_ok _ (normalized_price w i spec i.price) h2 in
      let (u', notional_checked, h4) =
        bind_ok _ (check_notional w i spec.min_notional size price) h3 in
      let (u'', passive_checked, h5) = bind_ok _ (check_post_only i price best_bid best_ask) h4 in
      subst (IsNormalized w spec i best_bid best_ask) (ok_eq _ r h5) (record {
        size = floored-IsFloored w i.size spec.lot_size size size_ok lot floor_step;
        reaches_minimum = guarded (is_below size spec.min_size) _ u size_checked;
        price = normalized_price-fits w i spec i.price price price_ok tick price_step;
        notional = check_notional-fits w i spec.min_notional size price u' notional_checked;
        passive = check_post_only-IsPassive i price best_bid best_ask u'' passive_checked;
        kept = refl;
      })

-- Where the lot and the tick of the instrument are above 0 and at most 1, and size and price are
-- not negative and in the i128 range, an order that is normalised successfully has as its size
-- the multiple of the lot up to the size asked for and at least the minimum size, as its price,
-- if there is one, the positive multiple of the price step up to the price asked for, a notional
-- value that reaches the minimum, and no post-only price that crosses the book; a multiple
-- counts as many steps as the value has, or the most integers of a decimal if that is less.
-- Nothing else of the order changes.
pub normalize-IsNormalized :
    (w : Wide) (instruments : String → Option InstrumentSpec) (spec : InstrumentSpec)
    (i : OrderIntent) (best_bid best_ask : Option Decimal) (r : OrderIntent)
    → instruments i.symbol ≡ some spec
    → IsFine spec.lot_size
    → IsFine spec.tick_size
    → IsAmount i.size
    → PriceIsAmount i.price
    → normalize w instruments i best_bid best_ask ≡ ok r
    → IsNormalized w spec i best_bid best_ask r
unfolding normalize
normalize-IsNormalized w instruments spec i best_bid best_ask r known lot tick size_ok price_ok h =
    normalize_to-IsNormalized w spec i best_bid best_ask r lot tick size_ok price_ok
      (rw (known, normalize) at h)
