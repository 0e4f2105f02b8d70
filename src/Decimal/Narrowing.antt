-- ===== src/Decimal/Narrowing.antt =====
-- `signed_to_i128` of crates/domain/src/decimal.rs, and that it is the nearest i128.
use hype_edge.Common.{◌≡◌, arith, if◌then◌else◌}
use hype_edge.Common.Int.{ℤ}
use hype_edge.Decimal.WideInteger.{Wide}
use hype_edge.Decimal.Machine.{i128_max, i128_min, saturate}

unfoldable pub signed_to_i128 : (w : Wide) → w.I256 → ℤ
signed_to_i128 w v =
    let x = w.as_i128 v in
    if w.equal (w.of_i128 x) v then x else if w.is_negative v then i128_min else i128_max

-- The narrowing of a 256-bit integer gives the i128 nearest to its value: the value itself where
-- it fits, the least i128 below the range and the greatest above it.
pub signed_to_i128-eq-saturate : (w : Wide) (v : w.I256) → signed_to_i128 w v ≡ saturate (w.value v)
unfolding signed_to_i128
signed_to_i128-eq-saturate w v = ground (
  arith,
  w.equal_iff (w.of_i128 (w.as_i128 v)) v,
  w.value-of_i128 (w.as_i128 v) (w.as_i128_range v),
  w.as_i128_range v,
  w.as_i128_fits v,
  w.is_negative_lem v,
)
