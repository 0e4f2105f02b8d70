-- ===== src/Decimal/Reads.antt =====
-- The laws of the 256-bit interface at integers: an expression of `ethnum` is worth the integer
-- expression, as long as that stays in range.
use hype_edge.Common.{◌≡◌, ◌≢◌}
use hype_edge.Common.Int.{ℤ, pos, ◌+ℤ◌, ◌-ℤ◌, ◌*ℤ◌, ◌/ℤ◌, neg}
use hype_edge.Decimal.WideInteger.{Wide, InI256}

module _ (w : Wide) {x y : w.I256} {a b : ℤ} (px : w.value x ≡ a) (py : w.value y ≡ b) where
  pub reads-add : InI256 (a +ℤ b) → w.value (w.add x y) ≡ a +ℤ b
  reads-add h = rw (← px, ← py) (w.value-add x y (rw (px, py) h))

  pub reads-sub : InI256 (a -ℤ b) → w.value (w.sub x y) ≡ a -ℤ b
  reads-sub h = rw (← px, ← py) (w.value-sub x y (rw (px, py) h))

  pub reads-mul : InI256 (a *ℤ b) → w.value (w.mul x y) ≡ a *ℤ b
  reads-mul h = rw (← px, ← py) (w.value-mul x y (rw (px, py) h))

  pub reads-div : b ≢ pos 0 → InI256 (a /ℤ b) → w.value (w.div x y) ≡ a /ℤ b
  reads-div n h = rw (← px, ← py) (w.value-div x y (rw py n) (rw (px, py) h))

module _ (w : Wide) {x : w.I256} {a : ℤ} (px : w.value x ≡ a) where
  pub reads-minus : InI256 (neg a) → w.value (w.minus x) ≡ neg a
  reads-minus h = rw (← px) (w.value-minus x (rw px h))
