-- ===== src/QuoteCoordinator/Coordinate.antt =====
-- The plan of both slots, crates/trading/src/trading/quote_coordinator.rs.
use Prim.Native.String.{String}
use hype_edge.Common.{Option, none, some, List, [], ◌∷◌, ◌++◌, if◌then◌else◌}
use hype_edge.Common.Int.{ℤ, pos, leb_ℤ}
use hype_edge.Common.Result.{Result, ok, err, ◌>>=◌, ◌>>◌}
use hype_edge.Decimal.{Decimal}
use hype_edge.Decimal.WideInteger.{Wide}
use hype_edge.Quotes.{
  DesiredQuoteSet, QuoteSlotView, QuoteDiff, QuotePlan, QuoteError, tick_not_positive,
}
use hype_edge.QuoteCoordinator.{
  QuoteCoordinatorConfig, reject_crossed, validate_views, fence_reason, make_plan,
}
use hype_edge.QuoteCoordinator.Diffs.{fenced_view, diff_slot}

module _ (w : Wide) (c : QuoteCoordinatorConfig) where
  unfoldable pub fenced_diffs :
      DesiredQuoteSet → QuoteSlotView → QuoteSlotView → Result QuoteError (List QuoteDiff)
  unfolding fenced_view
  fenced_diffs s bid ask = do
    b ← fenced_view w c s.bid bid
    a ← fenced_view w c s.ask ask
    ok (b ++ a)

  unfoldable pub plan_unfenced :
      DesiredQuoteSet → QuoteSlotView → QuoteSlotView → Decimal → ℤ → Result QuoteError QuotePlan
  unfolding diff_slot make_plan
  plan_unfenced s bid ask tick now = if leb_ℤ tick.raw (pos 0) then err tick_not_positive else (do
    b ← diff_slot w c s.bid bid tick now
    a ← diff_slot w c s.ask ask tick now
    ok (make_plan s (b ∷ a ∷ []) none))

  unfoldable pub plan_fenced :
      DesiredQuoteSet → QuoteSlotView → QuoteSlotView → String → Result QuoteError QuotePlan
  unfolding fenced_diffs make_plan
  plan_fenced s bid ask reason = do
    diffs ← fenced_diffs s bid ask
    ok (make_plan s diffs (some reason))

  unfoldable pub plan_working :
      DesiredQuoteSet
      → QuoteSlotView
      → QuoteSlotView
      → Decimal
      → ℤ
      → Option String
      → Result QuoteError QuotePlan
  unfolding plan_fenced plan_unfenced
  plan_working s bid ask tick now (some reason) = plan_fenced s bid ask reason
  plan_working s bid ask tick now none = plan_unfenced s bid ask tick now

  unfoldable pub coordinate :
      DesiredQuoteSet → QuoteSlotView → QuoteSlotView → Decimal → ℤ → Result QuoteError QuotePlan
  unfolding validate_views reject_crossed fence_reason plan_working
  coordinate s bid ask tick now = do
    validate_views s bid ask
    plan_working (reject_crossed s) bid ask tick now (fence_reason (reject_crossed s) bid ask now)
