-- ===== src/Tracker/Tests.antt =====
-- The tracker's theorems over a few fills of one order.
use hype_edge.Common.{ℕ, ◌≡◌, refl, false, Option, none, some, List, [], ◌∷◌, arith}
use hype_edge.Common.Int.{ℤ, pos, negsuc, ◌+ℤ◌, ◌-ℤ◌}
use hype_edge.Decimal.{Decimal, add, sub, abs, is_zero}
use hype_edge.Decimal.WideInteger.{exact_wide}
use hype_edge.Order.{Side, buy, sell}
use hype_edge.Common.Maps.{lookup, insert, remove}
use hype_edge.Tracker.{
  Fill, Position, TrackerState, new, update_fill, apply_authoritative_fill, settle, release,
  consumed, projected, opened,
}
use hype_edge.Tracker.Positions.{run_fills, run_fills-refines, size_of, abstract_run}
use hype_edge.Tracker.Exactly.{Event, applied_once}
use hype_edge.Tracker.Fees
use hype_edge.Tracker.Outstanding.{outstanding}

abbrev unit : ℕ → Decimal
unit n = record { raw = pos n }

abbrev fill : Side → ℕ → ℕ → Fill
fill side size fee = record {
  cloid = 7;
  exchange_oid = 1;
  symbol = 2;
  side = side;
  price = unit 1_000_000_000_000_000_000;
  size = unit size;
  fee = unit fee;
  is_maker = false;
  timestamp = pos 5;
  strategy_id = none;
  sub_account = none;
  is_spot = false;
}

abbrev fills : List (ℤ × Fill)
fills =
    (pos 1, fill buy 10 1)
    ∷ (pos 2, fill sell 25 1)
    ∷ (pos 3, record (fill buy 4 1) { symbol = 3 })
    ∷ []

-- Bought 10 and sold 25: the position has turned.
turned : abstract_run (size_of new) fills 2 ≡ record { raw = negsuc 14 }
unfolding add sub ◌+ℤ◌ ◌-ℤ◌ hype_edge.Tracker.shift lookup
turned = refl

run_fills-refines_example :
    (t' : TrackerState) × (run_fills exact_wide new fills ≡ some t')
    × (size_of t' ≡ abstract_run (size_of new) fills)
run_fills-refines_example = run_fills-refines exact_wide new fills (omega arith)

abbrev at : ℤ → Option ℤ
at ms = some ms

abbrev held : Position
unfolding opened
held = opened (fill buy 10 1)

abbrev first : TrackerState
unfolding settle release consumed add sub abs ◌+ℤ◌ ◌-ℤ◌ insert remove
first = settle at 40 (fill buy 10 1) (record new { positions = insert 2 held [] }) none

applied_once_example :
    apply_authoritative_fill at (record first { positions = [] }) 40 (fill sell 3 2) (some held)
    ≡ (record first { positions = [] }, false)
unfolding first held settle projected apply_authoritative_fill hype_edge.Tracker.Exactly.run
    hype_edge.Tracker.Exactly.step remove insert is_zero lookup
applied_once_example =
    applied_once exact_wide at new first (record first { positions = [] }) 40 (fill buy 10 1)
      (fill sell 3 2) (some held) (some held) (Event.position_dropped 2 ∷ []) refl refl

abbrev events : List Fees.FillEvent
events =
    Fees.FillEvent.local_fill (pos 1) (fill buy 10 3)
    ∷ Fees.FillEvent.committed_fill 40 (fill buy 10 2) (some held)
    ∷ []

run-AreFees_example :
    (t' : TrackerState) × (c' : ℕ) × (Fees.run exact_wide at new 0 events ≡ some (t', c'))
    × Fees.AreFees t' c'
unfolding outstanding
run-AreFees_example =
    Fees.run-AreFees exact_wide at new 0 events
      (record { distinct = tt; signed = tt; total = refl }) (omega arith)

abbrev free : Fill
free = fill buy 10 0

abbrev counted : Option (TrackerState × ℕ) → ℕ
counted none = 0
counted (some (t, c)) = t.fill_count

-- Two fills without a fee, each first local and then committed, count as three.
zero_fee_count :
    counted (
      Fees.run exact_wide at new 0 (
        Fees.FillEvent.local_fill (pos 1) free
        ∷ Fees.FillEvent.local_fill (pos 2) free
        ∷ Fees.FillEvent.committed_fill 40 free (some held)
        ∷ Fees.FillEvent.committed_fill 41 free (some held)
        ∷ []))
    ≡ 3
unfolding Fees.run held update_fill apply_authoritative_fill lookup insert remove add sub abs ◌+ℤ◌
    ◌-ℤ◌ is_zero hype_edge.Decimal.is_positive hype_edge.Decimal.is_negative hype_edge.Decimal.div
    hype_edge.Decimal.min
zero_fee_count = refl
