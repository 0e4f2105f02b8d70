-- ===== src/Tracker.antt =====
-- The account tracker of crates/trading/src/account/tracker.rs. Its operations hold the lock, so each
-- is one step. Symbols, cloids, tokens and event identities are numbers, of which only equality
-- counts, times are integers, and the conversion of a fill's milliseconds to an instant, by a package,
-- is a function argument. A panic is `none`. Logging is left out.
pub mod Positions
pub mod Outstanding
pub mod Fees
pub mod Exactly
mod Tests
use hype_edge.Common.{
  ℕ, suc, ◌+◌, Bool, true, false, not, ◌&&◌, ◌||◌, Option, none, some, List, [], ◌∷◌, ◌==◌, any,
  keep, map, if◌then◌else◌,
}
use hype_edge.Common.Int.{ℤ, pos, ltb_ℤ, leb_ℤ, eq_ℤ, max_ℤ}
use hype_edge.Common.Maps.{lookup, insert, remove}
use hype_edge.Decimal.{
  Decimal, decimal_zero, decimal_one, add, sub, mul, div, abs, min, negate, is_zero, is_negative,
  is_positive,
}
use hype_edge.Decimal.WideInteger.{Wide}
use hype_edge.Order.{Side, buy, sell}

pub record Fill : Type 0 where
  pub cloid : ℕ
  pub exchange_oid : ℕ
  pub symbol : ℕ
  pub side : Side
  pub price : Decimal
  pub size : Decimal
  pub fee : Decimal
  pub is_maker : Bool
  pub timestamp : ℤ
  pub strategy_id : Option ℕ
  pub sub_account : Option ℕ
  pub is_spot : Bool

pub record Position : Type 0 where
  pub symbol : ℕ
  pub size : Decimal
  pub entry_price : Option Decimal
  pub mark_price : Option Decimal
  pub unrealized_pnl : Option Decimal
  pub leverage : ℕ
  pub liquidation_price : Option Decimal
  pub sub_account : Option ℕ
  pub strategy_id : Option ℕ

pub record SpotBalance : Type 0 where
  pub token : ℕ
  pub total : Decimal
  pub hold : Decimal
  pub entry_ntl : Decimal
  pub sub_account : Option ℕ
  pub updated_at : ℤ

pub record AccountState : Type 0 where
  pub equity : Decimal
  pub available_balance : Decimal
  pub total_margin_used : Decimal
  pub total_unrealized_pnl : Decimal
  pub peak_equity : Decimal
  pub sub_account : Option ℕ

pub record TrackerState : Type 0 where
  pub positions : List (ℕ × Position)
  pub spot_balances : List (ℕ × SpotBalance)
  pub account_state : Option AccountState
  pub peak_equity : Decimal
  pub total_fees : Decimal
  pub total_funding : Decimal
  pub fill_count : ℕ
  pub last_update_ts : Option ℤ
  pub last_spot_update_ts : Option ℤ
  pub authoritative_fill_ids : List ℕ
  pub provisional_fill_fees : List (ℕ × Decimal)

abbrev pub new : TrackerState
new = record {
  positions = [];
  spot_balances = [];
  account_state = none;
  peak_equity = decimal_zero;
  total_fees = decimal_zero;
  total_funding = decimal_zero;
  fill_count = 0;
  last_update_ts = none;
  last_spot_update_ts = none;
  authoritative_fill_ids = [];
  provisional_fill_fees = [];
}

abbrev pub or_else {ℓ} : {A : Type ℓ} → Option A → A → A
or_else (some a) b = a
or_else none b = b

-- The fee of a cloid accumulates over its fills.
unfoldable pub accumulate : List (ℕ × Decimal) → ℕ → Decimal → List (ℕ × Decimal)
accumulate m cloid fee = elim (lookup cloid m) [
  | some old ↦ insert cloid (add old fee) m
  | none ↦ insert cloid fee m
]

unfoldable pub record_fill_accounting : ℤ → TrackerState → Fill → TrackerState
unfolding accumulate
record_fill_accounting now t f = record t {
  total_fees = add t.total_fees (abs f.fee);
  fill_count = t.fill_count + 1;
  provisional_fill_fees = accumulate t.provisional_fill_fees f.cloid (abs f.fee);
  last_update_ts = some now;
}

abbrev pub is_buy : Side → Bool
is_buy buy = true
is_buy sell = false

unfoldable pub shift : Decimal → Fill → Decimal
shift old f = if is_buy f.side then add old f.size else sub old f.size

unfoldable pub opened : Fill → Position
opened f = record {
  symbol = f.symbol;
  size = if is_buy f.side then f.size else negate f.size;
  entry_price = some f.price;
  mark_price = some f.price;
  unrealized_pnl = none;
  leverage = 0;
  liquidation_price = none;
  sub_account = none;
  strategy_id = none;
}

abbrev pub flips : Decimal → Decimal → Bool
flips old size = (is_positive old && is_negative size) || (is_negative old && is_positive size)

abbrev pub adds : Decimal → Fill → Bool
adds old f = (is_positive old && is_buy f.side) || (is_negative old && not (is_buy f.side))

abbrev pub put : ℕ → Option Position → List (ℕ × Position) → List (ℕ × Position)
put symbol none m = remove symbol m
put symbol (some p) m = insert symbol p m

module _ (w : Wide) where
  -- The entry price after adding in the same direction.
  unfoldable pub vwap : Position → Fill → Decimal → Option Decimal
  vwap p f size =
      let old_notional = mul w (abs p.size) (or_else p.entry_price f.price) in
      let new_notional = mul w f.size f.price in
      if is_positive (abs size)
      then div w (add old_notional new_notional) (abs size)
      else some f.price

  -- The position that is left, none if it is closed.
  unfoldable pub moved : Position → Fill → Decimal → Option (Option Position)
  unfolding vwap
  moved p f size =
      if is_zero size
      then some none
      else if flips p.size size
      then some
          (some (record p { size = size; entry_price = some f.price; mark_price = some f.price }))
      else if adds p.size f
      then (elim (vwap p f size) [
        | none ↦ none
        | some entry ↦
            some
              (some (record p { size = size; entry_price = some entry; mark_price = some f.price }))
      ])
      else some (some (record p { size = size; mark_price = some f.price }))

  unfoldable pub fill_positions :
      List (ℕ × Position) → Fill → Option Position → Option (List (ℕ × Position))
  unfolding opened moved shift
  fill_positions m f none = some (insert f.symbol (opened f) m)
  fill_positions m f (some p) = elim (moved p f (shift p.size f)) [
    | none ↦ none
    | some left ↦ some (put f.symbol left m)
  ]

  unfoldable pub update_fill : ℤ → TrackerState → Fill → Option TrackerState
  unfolding record_fill_accounting fill_positions
  update_fill now t f =
      if f.is_spot
      then some (record_fill_accounting now t f)
      else (elim (fill_positions t.positions f (lookup f.symbol t.positions)) [
        | none ↦ none
        | some m ↦ some (record_fill_accounting now (record t { positions = m }) f)
      ])

-- The positions after a committed fill, none if the fill is malformed.
unfoldable pub projected :
    List (ℕ × Position) → Bool → Option Position → Option (List (ℕ × Position))
projected m true none = some m
projected m true (some p) = none
projected m false none = none
projected m false (some p) =
    if is_zero p.size then some (remove p.symbol m) else some (insert p.symbol p m)

-- The part of a fee that has been counted provisionally.
unfoldable pub consumed : Option Decimal → Decimal → Decimal
consumed none fee = decimal_zero
consumed (some p) fee = min p fee

unfoldable pub release : List (ℕ × Decimal) → ℕ → Decimal → Option Decimal → List (ℕ × Decimal)
release m cloid used none = m
release m cloid used (some p) =
    if is_positive (sub p used) then insert cloid (sub p used) m else remove cloid m

abbrev pub count_after : Option Decimal → ℕ → ℕ
count_after (some p) n = n
count_after none n = n + 1

unfoldable pub settle : (ℤ → Option ℤ) → ℕ → Fill → TrackerState → Option Decimal → TrackerState
unfolding consumed release
settle of_millis id f t provisional =
    let fee = abs f.fee in
    let used = consumed provisional fee in
    record t {
      authoritative_fill_ids = id ∷ t.authoritative_fill_ids;
      total_fees = sub (add t.total_fees fee) used;
      provisional_fill_fees = release t.provisional_fill_fees f.cloid used provisional;
      fill_count = count_after provisional t.fill_count;
      last_update_ts = of_millis f.timestamp;
    }

unfoldable pub apply_authoritative_fill :
    (ℤ → Option ℤ) → TrackerState → ℕ → Fill → Option Position → TrackerState × Bool
unfolding projected settle
apply_authoritative_fill of_millis t id f position =
    if any (λ i. i == id) t.authoritative_fill_ids
    then (t, false)
    else (elim (projected t.positions f.is_spot position) [
      | none ↦ (t, false)
      | some m ↦ (
        settle of_millis id f (record t { positions = m }) (lookup f.cloid t.provisional_fill_fees),
        true,
      )
    ])

unfoldable pub update_account_state : ℤ → TrackerState → AccountState → TrackerState
update_account_state now t s =
    let peak = if ltb_ℤ t.peak_equity.raw s.equity.raw then s.equity else t.peak_equity in
    record t {
      peak_equity = peak;
      account_state = some (record s { peak_equity = peak });
      last_update_ts = some now;
    }

unfoldable pub update_position_from_exchange : TrackerState → ℕ → Position → TrackerState
update_position_from_exchange t symbol p = record t { positions = insert symbol p t.positions }

unfoldable pub remove_position : TrackerState → ℕ → TrackerState
remove_position t symbol = record t { positions = remove symbol t.positions }

unfoldable pub collect_balances : List SpotBalance → List (ℕ × SpotBalance) → List (ℕ × SpotBalance)
collect_balances [] m = m
collect_balances (b ∷ bs) m =
    collect_balances bs
      (if not (is_zero b.total) || not (is_zero b.hold) then insert b.token b m else m)

abbrev pub latest : Option ℤ → ℤ → ℤ
latest none at = at
latest (some previous) at = max_ℤ previous at

unfoldable pub update_spot_balances : TrackerState → List SpotBalance → ℤ → TrackerState
unfolding collect_balances
update_spot_balances t balances at = record t {
  spot_balances = collect_balances balances [];
  last_spot_update_ts = some at;
  last_update_ts = some (latest t.last_update_ts at);
}

unfoldable pub apply_funding : TrackerState → Decimal → TrackerState
apply_funding t amount = record t { total_funding = add t.total_funding amount }

module _ (w : Wide) where
  abbrev pub marked_value : Position → Option Decimal → Decimal
  marked_value p none = decimal_zero
  marked_value p (some mark) = mul w (abs p.size) mark

  unfoldable pub position_value : TrackerState → ℕ → Decimal
  position_value t symbol = elim (lookup symbol t.positions) [
    | none ↦ decimal_zero
    | some p ↦ marked_value p p.mark_price
  ]

  unfoldable pub sum_values : List (ℕ × Position) → Decimal → Decimal
  sum_values [] total = total
  sum_values (e ∷ m) total =
      sum_values m
        (elim e.1.mark_price [ none ↦ total | some mark ↦ add total (mul w (abs e.1.size) mark) ])

  unfoldable pub total_position_value : TrackerState → Decimal
  unfolding sum_values
  total_position_value t = sum_values t.positions decimal_zero
