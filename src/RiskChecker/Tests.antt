-- ===== src/RiskChecker/Tests.antt =====
-- The checker on a tracked account, with decimals in place of floating-point numbers.
use Prim.Native.String.{String}
use hype_edge.Common.{
  ℕ, ◌+◌, ◌*◌, ◌%◌, ◌^◌, ◌≡◌, ◌↔◌, refl, Bool, true, false, Option, none, some, List, [], ◌∷◌,
  arith, length,
}
use hype_edge.Common.Int.{pos, ltb_ℤ, leb_ℤ, ◌≤ℤ◌, ◌<ℤ◌, ◌*ℤ◌, ◌+ℤ◌}
use hype_edge.Decimal.{Decimal, decimal_zero, max, add, mul, abs, sub, div}
use hype_edge.Decimal.WideInteger.{exact_wide}
use hype_edge.Order.{buy, OrderType, TimeInForce}
use hype_edge.Safety.{OrderIntent}
use hype_edge.Tracker.{AccountState, TrackerState, Fill, new}
use hype_edge.Tracker.Positions.{run_fills, size_of, abstract_run}
use hype_edge.RiskChecker.{
  Floats, RiskCheckResult, AccountView, RiskLimits, RiskChecker, run_checks, tracker_view,
  max_notional, for_side,
}
use hype_edge.RiskChecker.Admission.{IsAdmitted, run_checks_iff}
use hype_edge.RiskChecker.Counters.{Request, serve, serve_counts, refused}
use hype_edge.RiskChecker.Tracked.{admitted_within_cap}

abbrev unit : ℕ → Decimal
unit n = record { raw = pos (n * 1_000_000_000_000_000_000) }

abbrev decimals : Floats
decimals = record {
  Float = Decimal;
  zero_float = decimal_zero;
  max_float = max;
  is_ge = λ a b. leb_ℤ b.raw a.raw;
  is_gt = λ a b. ltb_ℤ b.raw a.raw;
  of_seconds = λ s. record { raw = s *ℤ pos 1_000_000_000_000_000_000 };
  of_decimal = λ d. some d;
  to_decimal = λ d. some d;
  drawdown_text = λ a b. "drawdown_exceeded";
}

abbrev limits : RiskLimits decimals
limits = record {
  max_position_pct = record { raw = pos 200_000_000_000_000_000 };
  max_strategy_loss_pct = record { raw = pos 50_000_000_000_000_000 };
  max_drawdown_pct = record { raw = pos 100_000_000_000_000_000 };
  max_leverage = 5;
  timeout_ms = 500;
  account_stale_seconds = unit 360;
}

abbrev account : AccountState
account = record {
  equity = unit 1000;
  available_balance = unit 1000;
  total_margin_used = decimal_zero;
  total_unrealized_pnl = decimal_zero;
  peak_equity = unit 1000;
  sub_account = none;
}

abbrev tracked : TrackerState
tracked = record new { account_state = some account; last_update_ts = some (pos 0) }

abbrev order : ℕ → OrderIntent
order size = record {
  symbol = "BTC";
  side = buy;
  size = unit size;
  price = some (unit 100);
  order_type = OrderType.limit;
  time_in_force = TimeInForce.gtc;
  strategy_id = none;
  sub_account = none;
  is_reduce_only = false;
  cloid = none;
  client_id = none;
  is_spot = false;
  risk_reducing = false;
  max_slippage_bps = 50;
}

abbrev view : AccountView
unfolding tracker_view
view = tracker_view (λ s. 2) tracked

run_checks_iff_example :
    ((r : RiskCheckResult) × (run_checks decimals exact_wide limits view (order 1) none (pos 7)
        ≡ some r)
      × (r.passed ≡ true))
    ↔ IsAdmitted decimals exact_wide limits view (order 1) none (pos 7)
run_checks_iff_example = run_checks_iff decimals exact_wide limits view (order 1) none (pos 7)

abbrev requests : List Request
requests =
    record { view = view; intent = order 1; reference = none; now = pos 7; timed_out = false }
    ∷ record { view = view; intent = order 5; reference = none; now = pos 7; timed_out = true }
    ∷ []

abbrev fresh : RiskChecker
fresh = record { check_count = 0; reject_count = 0 }

serve_counts_example :
    (c' : RiskChecker) × (rs : List RiskCheckResult) × (serve decimals exact_wide limits fresh
        requests
      ≡ some (c', rs))
    × (length rs ≡ length requests)
    × (c'.check_count ≡ (fresh.check_count + length requests) % 2 ^ 64)
    × (c'.reject_count ≡ (fresh.reject_count + refused rs) % 2 ^ 64)
serve_counts_example =
    serve_counts decimals exact_wide limits fresh requests (omega arith) (omega arith)

abbrev bought : Fill
bought = record {
  cloid = 7;
  exchange_oid = 1;
  symbol = 2;
  side = buy;
  price = unit 100;
  size = unit 1;
  fee = decimal_zero;
  is_maker = false;
  timestamp = pos 5;
  strategy_id = none;
  sub_account = none;
  is_spot = false;
}

admitted_within_cap_example :
    (t' : TrackerState) × (run_fills exact_wide tracked ((pos 1, bought) ∷ []) ≡ some t')
    × (t'.account_state ≡ tracked.account_state)
    × ((r : RiskCheckResult)
        → run_checks decimals exact_wide limits
            (tracker_view (λ s. 2) t')
            (order 1)
            (some (unit 100))
            (pos 7)
          ≡ some r
        → r.passed ≡ true
        → (a : AccountState) × (tracked.account_state ≡ some a)
          × (pos 0 <ℤ (unit 100).raw)
          × ((mul exact_wide
                (abs (add (abstract_run (size_of tracked) ((pos 1, bought) ∷ []) 2) (unit 1)))
                (unit 100)).raw
              ≤ℤ (max_notional decimals exact_wide limits a).raw))
admitted_within_cap_example =
    admitted_within_cap decimals exact_wide limits (λ s. 2) tracked ((pos 1, bought) ∷ []) (order 1)
      (unit 100) (pos 7) (omega arith) refl

abbrev reason_of : Option RiskCheckResult → Option String
reason_of none = none
reason_of (some r) = r.reason

-- 5 × 100 is above a fifth of 1000.
over_limit :
    reason_of (run_checks decimals exact_wide limits view (order 5) none (pos 7))
    ≡ some "position_limit_exceeded"
unfolding run_checks view ◌*ℤ◌ hype_edge.Common.Maps.lookup hype_edge.RiskChecker.drawdown_pct div
    max sub ◌+ℤ◌ mul abs add
over_limit = refl
