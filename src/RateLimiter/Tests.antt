-- ===== src/RateLimiter/Tests.antt =====
-- A limiter of ten per minute, and the weights of some endpoints.
use hype_edge.Common.{◌≤◌, ◌≡◌, refl, List, [], ◌∷◌, arith, keep}
use hype_edge.Common.Int.{pos}
use hype_edge.RateLimiter.{
  new, total_weight, is_recent, calculate_weight, lookup, base_weight, item_weight, acquire_round,
  current_weight, retain,
}
use hype_edge.RateLimiter.Window.{Round, run, step, run_within_limit}

weight_of_funding_history : calculate_weight "fundingHistory" 0 41 ≡ 23
unfolding calculate_weight lookup base_weight item_weight
weight_of_funding_history = refl

weight_of_exchange : calculate_weight "exchange" 80 0 ≡ 3
unfolding calculate_weight
weight_of_exchange = refl

abbrev rounds : List Round
rounds =
    record { weight = 6; now = 5; pushed_at = 6 }
    ∷ record { weight = 6; now = 7; pushed_at = 7 }
    ∷ record { weight = 6; now = 60_000_000_007; pushed_at = 60_000_000_008 }
    ∷ []

granted_of_rounds :
    total_weight (run (record { limiter = new 10 (pos 1000); granted = [] }) rounds).granted ≡ 12
unfolding total_weight run step acquire_round current_weight retain is_recent new
granted_of_rounds = refl

run_within_limit_example :
    total_weight (
      keep
        (is_recent 60_000_000_009)
        (run (record { limiter = new 10 (pos 1000); granted = [] }) rounds).granted)
    ≤ 10
run_within_limit_example =
    run_within_limit 10 (pos 1000) rounds 60_000_000_009
      (
        omega arith,
        omega arith,
        (omega arith, omega arith, (omega arith, omega arith, omega arith)),
      )
      (omega arith, (omega arith, (omega arith, tt)))
