-- ===== src/RateLimiter.antt =====
-- The rate limiter of crates/trading/src/market_data/rate_limiter.rs. Instants are numbers of
-- nanoseconds and never go back, weights are u64. A round of `acquire` holds the lock throughout, so
-- it is one step; it reads the clock twice.
pub mod Window
mod Tests
use Prim.Native.String.{String}
use text.Mathlib.Text.{◌==◌ as str_eq}
use hype_edge.Common.{
  ℕ, zero, suc, ◌+◌, ◌-◌, ◌*◌, ◌/◌, ◌%◌, ◌^◌, Bool, true, false, ◌&&◌, Option, none, some, List, [],
  ◌∷◌, ◌++◌, ltb, leb, keep, if◌then◌else◌,
}
use hype_edge.Common.Int.{ℤ, pos, leb_ℤ, ltb_ℤ}
use hype_edge.Common.Result.{Result, ok, err}

pub record Stamp : Type 0 where
  pub at : ℕ
  pub weight : ℕ

pub record RateLimiter : Type 0 where
  pub ip_weight_limit : ℕ
  pub action_credits_low_watermark : ℤ
  pub weight_timestamps : List Stamp
  pub action_credits_remaining : ℤ
  pub action_credits_last_query : Option ℕ

-- Sixty seconds.
abbrev pub window : ℕ
window = 60_000_000_000

unfoldable pub total_weight : List Stamp → ℕ
total_weight [] = 0
total_weight (s ∷ ss) = s.weight + total_weight ss

-- Whether a stamp is within the window before `now`.
unfoldable pub is_recent : ℕ → Stamp → Bool
is_recent now s = ltb now (s.at + window)

-- The old stamps dropped, and the weight that is left.
unfoldable pub retain : ℕ → RateLimiter → RateLimiter
unfolding is_recent
retain now r = record r { weight_timestamps = keep (is_recent now) r.weight_timestamps }

unfoldable pub current_weight : ℕ → RateLimiter → RateLimiter × ℕ
unfolding retain total_weight
current_weight now r = (retain now r, total_weight (retain now r).weight_timestamps % 2 ^ 64)

-- One round of `acquire`, and whether the weight was granted.
unfoldable pub acquire_round : ℕ → ℕ → ℕ → RateLimiter → RateLimiter × Bool
unfolding current_weight
acquire_round weight now pushed_at r =
    let (r', current) = current_weight now r in
    if leb ((current + weight) % 2 ^ 64) r'.ip_weight_limit
    then (
      record r' {
        weight_timestamps =
            r'.weight_timestamps ++ (record { at = pushed_at; weight = weight }) ∷ [];
      },
      true,
    )
    else (r', false)

unfoldable pub new : ℕ → ℤ → RateLimiter
new limit mark = record {
  ip_weight_limit = limit;
  action_credits_low_watermark = mark;
  weight_timestamps = [];
  action_credits_remaining = pos 10_000;
  action_credits_last_query = none;
}

abbrev pub endpoint_weights : List (String × ℕ)
endpoint_weights =
    ("l2Book", 2)
    ∷ ("allMids", 2)
    ∷ ("clearinghouseState", 2)
    ∷ ("orderStatus", 2)
    ∷ ("spotClearinghouseState", 2)
    ∷ ("exchangeStatus", 2)
    ∷ ("userRole", 60)
    ∷ ("explorer", 40)
    ∷ []

abbrev pub per_item_endpoints : List (String × ℕ)
per_item_endpoints =
    ("fundingHistory", 20)
    ∷ ("candleSnapshot", 60)
    ∷ ("userFills", 20)
    ∷ ("userFillsByTime", 20)
    ∷ ("recentTrades", 20)
    ∷ ("historicalOrders", 20)
    ∷ []

unfoldable pub lookup : String → List (String × ℕ) → Option ℕ
lookup e [] = none
lookup e (x ∷ xs) = if str_eq x.0 e then some x.1 else lookup e xs

unfoldable pub base_weight : Option ℕ → ℕ
base_weight (some w) = w
base_weight none = 20

-- The quotient by the batch size, rounded up.
unfoldable pub item_weight : Option ℕ → ℕ → ℕ
item_weight none items = 0
item_weight (some batch) items = (items + (batch - 1)) / batch

unfoldable pub calculate_weight : String → ℕ → ℕ → ℕ
unfolding lookup base_weight item_weight
calculate_weight endpoint batch_length item_count =
    if str_eq endpoint "exchange"
    then 1 + batch_length / 40
    else base_weight (lookup endpoint endpoint_weights)
      + item_weight (lookup endpoint per_item_endpoints) item_count

-- `acquire` with this many retries left. The clock gives the two readings of a round and `between` is
-- what the other threads do while it sleeps.
unfoldable pub acquire_rounds :
    (ℕ → ℕ × ℕ) → (ℕ → RateLimiter → RateLimiter) → ℕ → ℕ → RateLimiter → RateLimiter × Bool
unfolding acquire_round
acquire_rounds clock between weight zero r = acquire_round weight (clock 0).0 (clock 0).1 r
acquire_rounds clock between weight (suc left) r =
    let (r', granted) = acquire_round weight (clock (suc left)).0 (clock (suc left)).1 r in
    let rest = acquire_rounds clock between weight left (between left r') in
    if granted then (r', true) else rest

unfoldable pub acquire :
    (ℕ → ℕ × ℕ)
    → (ℕ → RateLimiter → RateLimiter)
    → String
    → ℕ
    → ℕ
    → RateLimiter
    → RateLimiter × Bool
unfolding calculate_weight acquire_rounds
acquire clock between endpoint batch_length item_count r =
    acquire_rounds clock between (calculate_weight endpoint batch_length item_count) 60 r

unfoldable pub ip_weight_remaining : ℕ → RateLimiter → RateLimiter × ℕ
unfolding current_weight
ip_weight_remaining now r =
    let (r', current) = current_weight now r in (r', r'.ip_weight_limit - current)

unfoldable pub acquire_action_credits : ℤ → RateLimiter → Bool
acquire_action_credits count r = if ltb_ℤ r.action_credits_remaining count then false else true

unfoldable pub update_action_credits : ℤ → ℕ → RateLimiter → RateLimiter
update_action_credits remaining now r = record r {
  action_credits_remaining = remaining;
  action_credits_last_query = some now;
}
