-- ===== src/RiskChecker.antt =====
-- The risk checker of crates/trading/src/risk/checker.rs, with the limits and the drawdown of
-- crates/domain/src/models.rs. Floating-point numbers and what the code does with them are an
-- interface. `none` is a panic. Whether the deadline of `check` has passed, by a package, is an
-- argument. The checks never give the error that their type allows, so its branch is left out.
pub mod Admission
pub mod Counters
pub mod Tracked
mod Tests
use Prim.Native.String.{String}
use hype_edge.Common.{
  ℕ, ◌+◌, ◌*◌, ◌%◌, ◌^◌, Bool, true, false, not, ◌&&◌, ◌||◌, Option, none, some, List, [], ◌∷◌,
  ◌++◌, if◌then◌else◌,
}
use hype_edge.Common.Int.{ℤ, pos, ◌-ℤ◌, ◌/ℤ◌, leb_ℤ, ltb_ℤ}
use hype_edge.Decimal.{
  Decimal, decimal_zero, decimal_one, add, sub, mul, div, abs, max, min, negate, scale_unit,
}
use hype_edge.Decimal.WideInteger.{Wide}
use hype_edge.Order.{Side, buy, sell}
use hype_edge.Safety.{OrderIntent}
use hype_edge.Common.Maps.{lookup}
use hype_edge.Tracker.{AccountState, Position, TrackerState}

-- Floating-point numbers: the comparisons, the conversions (`of_decimal` by way of the text, where
-- `none` is no number), and the text of the message on a drawdown.
pub record Floats : Type 1 where
  pub Float : Type 0
  pub zero_float : Float
  pub max_float : Float → Float → Float
  pub is_ge : Float → Float → Bool
  pub is_gt : Float → Float → Bool
  pub of_seconds : ℤ → Float
  pub of_decimal : Decimal → Option Float
  pub to_decimal : Float → Option Decimal
  pub drawdown_text : Float → Float → String

pub record RiskCheckResult : Type 0 where
  pub passed : Bool
  pub reason : Option String
  pub checked_limits : List String

-- What the checker reads of the account; times in nanoseconds.
pub record AccountView : Type 0 where
  pub get_account_state : Option AccountState
  pub get_position : String → Option Position
  pub last_update_ts : Option ℤ

abbrev pub fail : String → List String → RiskCheckResult
fail reason checked = record { passed = false; reason = some reason; checked_limits = checked }

abbrev pub pass : List String → RiskCheckResult
pass checked = record { passed = true; reason = none; checked_limits = checked }

abbrev pub or_else {ℓ} : {A : Type ℓ} → Option A → Option A → Option A
or_else (some a) b = some a
or_else none b = b

abbrev pub or_zero : Option Decimal → Decimal
or_zero (some d) = d
or_zero none = decimal_zero

abbrev pub mark_of : Option Position → Option Decimal
mark_of none = none
mark_of (some p) = p.mark_price

abbrev pub held_size : Option Position → Decimal
held_size none = decimal_zero
held_size (some p) = p.size

abbrev pub for_side {ℓ} : {A : Type ℓ} → Side → A → A → A
for_side buy a b = a
for_side sell a b = b

abbrev pub is_sell : Side → Bool
is_sell buy = false
is_sell sell = true

unfoldable pub conservative_fallback_price : Side → Option Decimal → Option Decimal → Option Decimal
conservative_fallback_price side (some limit) (some mark) =
    some (for_side side (min limit mark) (max limit mark))
conservative_fallback_price side (some limit) none = some limit
conservative_fallback_price side none mark = none

unfoldable pub effective_price : OrderIntent → Option Position → Option Decimal → Decimal
unfolding conservative_fallback_price
effective_price i p reference = or_zero (
    or_else reference
      (or_else (conservative_fallback_price i.side i.price (mark_of p)) (mark_of p)))

unfoldable pub resulting_size : OrderIntent → Option Position → Decimal
resulting_size i p = add (held_size p) (for_side i.side i.size (negate i.size))

-- `Decimal::from_i128` of a u32, whose product with 10^18 fits an i128.
abbrev pub times : ℕ → Decimal
times n = record { raw = pos (n * scale_unit) }

module _ (fl : Floats) where
  pub record RiskLimits : Type 0 where
    pub max_position_pct : fl.Float
    pub max_strategy_loss_pct : fl.Float
    pub max_drawdown_pct : fl.Float
    pub max_leverage : ℕ
    pub timeout_ms : ℕ
    pub account_stale_seconds : fl.Float

  abbrev pub or_zero_float : Option fl.Float → fl.Float
  or_zero_float (some x) = x
  or_zero_float none = fl.zero_float

module _ (fl : Floats) (w : Wide) where
  unfoldable pub drawdown_pct : AccountState → Option fl.Float
  drawdown_pct a =
      if leb_ℤ a.peak_equity.raw (pos 0)
      then some fl.zero_float
      else (elim (div w a.equity a.peak_equity) [
        | none ↦ none
        | some ratio ↦
            some (
              fl.max_float (or_zero_float fl (fl.of_decimal (sub decimal_one ratio))) fl.zero_float)
      ])

module _ (fl : Floats) (w : Wide) (l : RiskLimits fl) where
  unfoldable pub is_stale : Option ℤ → ℤ → Bool
  unfolding ◌-ℤ◌ ◌/ℤ◌
  is_stale none now = true
  is_stale (some ts) now =
      fl.is_gt (fl.of_seconds ((now -ℤ ts) /ℤ pos 1_000_000_000)) l.account_stale_seconds

  unfoldable pub max_notional : AccountState → Decimal
  max_notional a = mul w a.equity (or_zero (fl.to_decimal l.max_position_pct))

  unfoldable pub notional_of : OrderIntent → Option Position → Decimal → Decimal
  unfolding resulting_size
  notional_of i p price = mul w (abs (resulting_size i p)) price

  unfoldable pub spot_bounded :
      OrderIntent → AccountState → Decimal → List String → fl.Float → RiskCheckResult
  unfolding max_notional
  spot_bounded i a price checked d =
      if fl.is_ge d l.max_drawdown_pct
      then fail (fl.drawdown_text d l.max_drawdown_pct) checked
      else if leb_ℤ a.equity.raw (pos 0)
      then fail "account_equity_non_positive" checked
      else if is_sell i.side
      then pass checked
      else if ltb_ℤ (max_notional a).raw (mul w i.size price).raw
      then fail "position_limit_exceeded" (checked ++ "max_position_pct" ∷ [])
      else pass (checked ++ "max_position_pct" ∷ [])

  unfoldable pub check_spot :
      OrderIntent → AccountState → Decimal → List String → Option RiskCheckResult
  unfolding spot_bounded
  check_spot i a price checked =
      let validated = checked ++ "spot_balance_validated_upstream" ∷ [] in
      if i.is_reduce_only
      then some (fail "spot_reduce_only_invalid" checked)
      else if i.risk_reducing
      then (if is_sell i.side
          then some (pass (validated ++ "risk_reducing_exit" ∷ []))
          else some (fail "invalid_risk_reducing_order" validated))
      else (elim (drawdown_pct fl w a) [
        | none ↦ none
        | some d ↦ some (spot_bounded i a price (validated ++ "max_drawdown" ∷ []) d)
      ])

  unfoldable pub perp_bounded : AccountState → Decimal → List String → Decimal → RiskCheckResult
  unfolding max_notional
  perp_bounded a notional checked leverage =
      if ltb_ℤ (times l.max_leverage).raw leverage.raw
      then fail "leverage_exceeded" checked
      else if ltb_ℤ (max_notional a).raw notional.raw
      then fail "position_limit_exceeded" (checked ++ "max_position_pct" ∷ [])
      else pass (checked ++ "max_position_pct" ∷ [])

  unfoldable pub perp_leveraged :
      AccountState → Decimal → List String → fl.Float → Option RiskCheckResult
  unfolding perp_bounded
  perp_leveraged a notional checked d =
      let levered = checked ++ "max_leverage" ∷ [] in
      if fl.is_ge d l.max_drawdown_pct
      then some (fail (fl.drawdown_text d l.max_drawdown_pct) checked)
      else if leb_ℤ a.equity.raw (pos 0)
      then some (fail "account_equity_non_positive" levered)
      else (elim (div w notional a.equity) [
        | none ↦ none
        | some leverage ↦ some (perp_bounded a notional levered leverage)
      ])

  unfoldable pub check_perp :
      OrderIntent → AccountState → Option Position → Decimal → List String → Option RiskCheckResult
  unfolding perp_leveraged notional_of
  check_perp i a p price checked = elim (drawdown_pct fl w a) [
    | none ↦ none
    | some d ↦ perp_leveraged a (notional_of i p price) (checked ++ "max_drawdown" ∷ []) d
  ]

  unfoldable pub check_priced :
      OrderIntent → AccountState → Option Position → Decimal → List String → Option RiskCheckResult
  unfolding check_spot check_perp
  check_priced i a p price checked =
      if leb_ℤ price.raw (pos 0)
      then some (fail "market_price_not_available" checked)
      else if i.is_spot
      then check_spot i a price checked
      else check_perp i a p price checked

  unfoldable pub check_account :
      AccountView → OrderIntent → Option Decimal → ℤ → Option AccountState → Option RiskCheckResult
  unfolding is_stale effective_price check_priced
  check_account v i reference now none =
      some (fail "account_state_not_available" ("account_state_missing" ∷ []))
  check_account v i reference now (some a) =
      let checked = "account_state_available" ∷ "account_state_fresh" ∷ [] in
      if is_stale v.last_update_ts now
      then some (fail "account_state_stale" checked)
      else check_priced i a (v.get_position i.symbol)
          (effective_price i (v.get_position i.symbol) reference) checked

  unfoldable pub run_checks :
      AccountView → OrderIntent → Option Decimal → ℤ → Option RiskCheckResult
  unfolding check_account
  run_checks v i reference now = check_account v i reference now v.get_account_state

pub record RiskChecker : Type 0 where
  pub check_count : ℕ
  pub reject_count : ℕ

-- A u64 counter, which wraps around.
abbrev pub fetch_add : ℕ → ℕ
fetch_add n = (n + 1) % 2 ^ 64

unfoldable pub count_result : RiskChecker → RiskCheckResult → RiskChecker × RiskCheckResult
count_result c r = (
  record {
    check_count = fetch_add c.check_count;
    reject_count = if r.passed then c.reject_count else fetch_add c.reject_count;
  },
  r,
)

-- What `check` makes of the result of `run_checks`, or of a deadline that has passed.
unfoldable pub settle_check :
    RiskChecker → Bool → Option RiskCheckResult → Option (RiskChecker × RiskCheckResult)
unfolding count_result
settle_check c timed_out none = none
settle_check c true (some r) = some (count_result c (fail "risk_check_timeout" []))
settle_check c false (some r) = some (count_result c r)

module _ (fl : Floats) (w : Wide) (l : RiskLimits fl) where
  unfoldable pub check :
      RiskChecker
      → AccountView
      → OrderIntent
      → Option Decimal
      → ℤ
      → Bool
      → Option (RiskChecker × RiskCheckResult)
  unfolding run_checks settle_check
  check c v i reference now timed_out =
      settle_check c timed_out (run_checks fl w l v i reference now)

-- The tracker as the checker reads it; `name` gives the number of a symbol.
unfoldable pub tracker_view : (String → ℕ) → TrackerState → AccountView
tracker_view name t = record {
  get_account_state = t.account_state;
  get_position = λ symbol. lookup (name symbol) t.positions;
  last_update_ts = t.last_update_ts;
}
