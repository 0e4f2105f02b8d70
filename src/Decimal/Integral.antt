-- ===== src/Decimal/Integral.antt =====
-- Rounding of decimals to integers: crates/domain/src/decimal.rs, `floor` and `ceil`.
use hype_edge.Common.{◌≡◌, ap, ◌∙◌, arith, if◌then◌else◌}
use hype_edge.Common.Int.{ℤ, pos, negsuc, ◌+ℤ◌, ◌-ℤ◌, ◌*ℤ◌, ◌/ℤ◌, ◌%ℤ◌, ◌≤ℤ◌, ◌<ℤ◌, ltb_ℤ}
use hype_edge.Decimal.{Decimal, floor, ceil, scale_i128}
use hype_edge.Decimal.WideInteger.{Wide, InI128, InI256}
use hype_edge.Decimal.Machine.{saturate}
use hype_edge.Decimal.Reads.{reads-add, reads-sub, reads-mul}
use hype_edge.Decimal.Narrowing.{signed_to_i128-eq-saturate}

-- The integers below and above `a / 10^18`, in units of 10^-18.
abbrev pub floor_base : ℤ → ℤ
floor_base a = if ltb_ℤ (a %ℤ scale_i128) (pos 0) then a /ℤ scale_i128 -ℤ pos 1 else a /ℤ scale_i128

abbrev ceil_base : ℤ → ℤ
ceil_base a = if ltb_ℤ (pos 0) (a %ℤ scale_i128) then a /ℤ scale_i128 +ℤ pos 1 else a /ℤ scale_i128

base_range :
    (a : ℤ)
    → InI128 a
    → InI128 (a /ℤ scale_i128)
      × InI256 (a /ℤ scale_i128 -ℤ pos 1)
      × InI256 (a /ℤ scale_i128 +ℤ pos 1)
      × InI256 (floor_base a *ℤ scale_i128)
      × InI256 (ceil_base a *ℤ scale_i128)
unfolding ◌/ℤ◌ ◌-ℤ◌ ◌+ℤ◌ ◌*ℤ◌ ◌%ℤ◌
base_range (pos n) h = (ground arith, ground arith, ground arith, ground arith, ground arith)
base_range (negsuc n) h = (ground arith, ground arith, ground arith, ground arith, ground arith)

module _ (w : Wide) where
  floor_base_lem :
      (a : ℤ)
      → InI128 a
      → w.value (
          if ltb_ℤ (a %ℤ scale_i128) (pos 0)
          then w.sub (w.of_i128 (a /ℤ scale_i128)) (w.of_i128 (pos 1))
          else w.of_i128 (a /ℤ scale_i128))
        ≡ floor_base a
  floor_base_lem a h =
      let v = w.value-of_i128 (a /ℤ scale_i128) (base_range a h).0 in
      ground (arith, v, reads-sub w v (w.value-of_i128 (pos 1) (omega arith)) (base_range a h).1)

  pub floor-eq :
      (d : Decimal) → InI128 d.raw → (floor w d).raw ≡ saturate (floor_base d.raw *ℤ scale_i128)
  unfolding floor
  floor-eq d h =
      signed_to_i128-eq-saturate w _
      ∙ ap saturate (
          reads-mul w (floor_base_lem d.raw h) (w.value-of_i128 scale_i128 (omega arith))
            (base_range d.raw h).3)

  ceil_base_lem :
      (a : ℤ)
      → InI128 a
      → w.value (
          if ltb_ℤ (pos 0) (a %ℤ scale_i128)
          then w.add (w.of_i128 (a /ℤ scale_i128)) (w.of_i128 (pos 1))
          else w.of_i128 (a /ℤ scale_i128))
        ≡ ceil_base a
  ceil_base_lem a h =
      let v = w.value-of_i128 (a /ℤ scale_i128) (base_range a h).0 in
      ground (arith, v, reads-add w v (w.value-of_i128 (pos 1) (omega arith)) (base_range a h).2)

  ceil-eq : (d : Decimal) → InI128 d.raw → (ceil w d).raw ≡ saturate (ceil_base d.raw *ℤ scale_i128)
  unfolding ceil
  ceil-eq d h =
      signed_to_i128-eq-saturate w _
      ∙ ap saturate (
          reads-mul w (ceil_base_lem d.raw h) (w.value-of_i128 scale_i128 (omega arith))
            (base_range d.raw h).4)

floor_base_bounds :
    (a : ℤ) → (floor_base a *ℤ scale_i128 ≤ℤ a) × (a <ℤ floor_base a *ℤ scale_i128 +ℤ scale_i128)
unfolding ◌/ℤ◌ ◌-ℤ◌ ◌+ℤ◌ ◌*ℤ◌ ◌%ℤ◌
floor_base_bounds (pos n) = (ground arith, ground arith)
floor_base_bounds (negsuc n) = (ground arith, ground arith)

ceil_base_bounds :
    (a : ℤ) → (a ≤ℤ ceil_base a *ℤ scale_i128) × (ceil_base a *ℤ scale_i128 <ℤ a +ℤ scale_i128)
unfolding ◌/ℤ◌ ◌+ℤ◌ ◌*ℤ◌ ◌%ℤ◌
ceil_base_bounds (pos n) = (ground arith, ground arith)
ceil_base_bounds (negsuc n) = (ground arith, ground arith)

module _ (w : Wide) (d : Decimal) (h : InI128 d.raw) where
  -- The floor of a decimal in the i128 range is a multiple of 10^18, saturated to i128, where
  -- the multiple is at most the raw value and less than one unit below it.
  pub floor_bounds :
      (k : ℤ) × ((floor w d).raw ≡ saturate (k *ℤ scale_i128))
      × (k *ℤ scale_i128 ≤ℤ d.raw)
      × (d.raw <ℤ k *ℤ scale_i128 +ℤ scale_i128)
  floor_bounds =
      (floor_base d.raw, floor-eq w d h, (floor_base_bounds d.raw).0, (floor_base_bounds d.raw).1)

  -- The ceiling of a decimal in the i128 range is a multiple of 10^18, saturated to i128, where
  -- the multiple is at least the raw value and less than one unit above it.
  pub ceil_bounds :
      (k : ℤ) × ((ceil w d).raw ≡ saturate (k *ℤ scale_i128))
      × (d.raw ≤ℤ k *ℤ scale_i128)
      × (k *ℤ scale_i128 <ℤ d.raw +ℤ scale_i128)
  ceil_bounds =
      (ceil_base d.raw, ceil-eq w d h, (ceil_base_bounds d.raw).0, (ceil_base_bounds d.raw).1)

-- The floor and the ceiling of a decimal in the i128 range are multiples of 10^18, saturated to
-- i128: the multiple of the floor is at most the raw value and less than one unit below it, that
-- of the ceiling at least the raw value and less than one unit above it.
pub integral_bounds :
    (w : Wide) (d : Decimal)
    → InI128 d.raw
    → ((k : ℤ) × ((floor w d).raw ≡ saturate (k *ℤ scale_i128))
        × (k *ℤ scale_i128 ≤ℤ d.raw)
        × (d.raw <ℤ k *ℤ scale_i128 +ℤ scale_i128))
      × ((k : ℤ) × ((ceil w d).raw ≡ saturate (k *ℤ scale_i128))
          × (d.raw ≤ℤ k *ℤ scale_i128)
          × (k *ℤ scale_i128 <ℤ d.raw +ℤ scale_i128))
integral_bounds w d h = (floor_bounds w d h, ceil_bounds w d h)
