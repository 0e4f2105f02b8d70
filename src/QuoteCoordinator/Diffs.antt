-- ===== src/QuoteCoordinator/Diffs.antt =====
-- The change of one slot, crates/trading/src/trading/quote_coordinator.rs.
use Prim.Native.String.{String}
use hype_edge.Common.{
  ℕ, Bool, false, not, ◌&&◌, ◌||◌, Option, none, some, List, [], ◌∷◌, length, if◌then◌else◌,
}
use hype_edge.Common.Int.{ℤ, pos, ltb_ℤ, leb_ℤ, ◌-ℤ◌}
use hype_edge.Common.Result.{Result, ok, err, ◌>>=◌}
use hype_edge.Decimal.{Decimal, add, sub, abs, mul, div, min}
use hype_edge.Decimal.WideInteger.{Wide}
use hype_edge.Quotes.{
  QuoteDecision, quote, keep_quote, no_quote, QuoteAction, keep_live, place, cancel,
  cancel_then_place, no_action, blocked_unknown, DesiredQuote, QuoteRiskOwner, QuoteSlotView,
  QuoteDiff, QuoteError, price_missing, size_missing, panic, is_no_quote, has_inflight,
  current_owner,
}
use hype_edge.QuoteCoordinator.{QuoteCoordinatorConfig, whole, blocked_reason, is_blocked}

-- 1.2, the bound on a replacement relative to what remains.
abbrev pub shrink_factor : Decimal
shrink_factor = record { raw = pos 1_200_000_000_000_000_000 }

unfoldable pub clamp_size : Wide → Option Decimal → Decimal → Option Decimal
clamp_size w none remaining = none
clamp_size w (some size) remaining =
    if leb_ℤ size.raw remaining.raw
    then some size
    else some (min size (mul w remaining shrink_factor))

unfoldable pub clamp_to_partial_fill : Wide → DesiredQuote → QuoteRiskOwner → DesiredQuote
unfolding clamp_size
clamp_to_partial_fill w q o = record q { size = clamp_size w q.size o.remaining_size }

abbrev pub cooling : QuoteCoordinatorConfig → Option ℤ → ℤ → Bool
cooling c none now = false
cooling c (some last) now = ltb_ℤ (now -ℤ last) c.refresh_cooldown

module _ (w : Wide) (c : QuoteCoordinatorConfig) where
  unfoldable pub transition_cost : ℕ → Decimal
  transition_cost children =
      mul w (add c.action_shadow_cost_usdc c.failure_tail_cost_per_action_usdc) (whole children)

  unfoldable pub make_diff :
      DesiredQuote → Option QuoteRiskOwner → QuoteAction → List String → String → QuoteDiff
  make_diff q source action children reason = record {
    slot = q.slot;
    action = action;
    source = source;
    desired = q;
    child_actions = children;
    reason = reason;
    gross_edge_usdc = q.gross_edge_usdc;
    transition_cost_usdc = transition_cost (length children);
    net_incremental_utility_usdc = sub q.gross_edge_usdc (transition_cost (length children));
  }

  -- What a fence leaves of a withdrawn quote.
  unfoldable pub withdraw : DesiredQuote → Option QuoteRiskOwner → QuoteDiff
  unfolding make_diff
  withdraw q (some o) = make_diff q (some o) cancel ("cancel" ∷ []) q.reason
  withdraw q none = make_diff q none no_action [] q.reason

  -- What a round of the loop of `fenced_diffs` adds, given the owner.
  unfoldable pub fenced_side : DesiredQuote → QuoteSlotView → Option QuoteRiskOwner → List QuoteDiff
  unfolding is_blocked blocked_reason withdraw make_diff
  fenced_side q v owner =
      if is_blocked v
      then make_diff q owner blocked_unknown [] (blocked_reason v) ∷ []
      else if is_no_quote q.decision
      then withdraw q owner ∷ []
      else []

  -- One round of the loop of `fenced_diffs`: the owner is read where it is needed.
  unfoldable pub fenced_view : DesiredQuote → QuoteSlotView → Result QuoteError (List QuoteDiff)
  unfolding is_blocked fenced_side
  fenced_view q v =
      if is_blocked v || is_no_quote q.decision
      then (do owner ← current_owner v; ok (fenced_side q v owner))
      else ok []

  -- A quote with a live owner, once its price is `ticks` ticks away and its size is `size`.
  unfoldable pub replace_owner :
      DesiredQuote → QuoteSlotView → QuoteRiskOwner → Decimal → Decimal → ℤ → QuoteDiff
  unfolding make_diff transition_cost
  replace_owner q v o ticks size now =
      let age = now -ℤ o.live_since in
      let delta = abs (sub size o.remaining_size) in
      let forced = leb_ℤ c.max_quote_age age in
      let net = sub q.gross_edge_usdc (transition_cost 2) in
      if leb_ℤ ticks.raw (whole c.price_hysteresis_ticks).raw
        && leb_ℤ delta.raw c.size_hysteresis.raw
      then make_diff q (some o) keep_live [] "within_price_size_hysteresis"
      else if ltb_ℤ age c.min_quote_lifetime
      then make_diff q (some o) keep_live [] "minimum_quote_lifetime"
      else if cooling c v.last_transition_at now
      then make_diff q (some o) keep_live [] "refresh_cooldown"
      else if not forced && leb_ℤ net.raw c.replace_hysteresis_usdc.raw
      then make_diff q (some o) keep_live [] "replace_not_incrementally_better"
      else make_diff q (some o) cancel_then_place ("cancel" ∷ "place" ∷ [])
          (if forced then "maximum_quote_age" else "replace_hysteresis_passed")

  unfoldable pub diff_price :
      DesiredQuote
      → QuoteSlotView
      → QuoteRiskOwner
      → Decimal
      → ℤ
      → Option Decimal
      → Result QuoteError QuoteDiff
  unfolding clamp_to_partial_fill replace_owner
  diff_price q v o tick now none = err price_missing
  diff_price q v o tick now (some price) = elim (div w (abs (sub price o.price)) tick) [
    | none ↦ err panic
    | some ticks ↦ elim (clamp_to_partial_fill w q o).size [
      | none ↦ err size_missing
      | some size ↦ ok (replace_owner (clamp_to_partial_fill w q o) v o ticks size now)
    ]
  ]

  unfoldable pub diff_decision :
      DesiredQuote
      → QuoteSlotView
      → Decimal
      → ℤ
      → QuoteDecision
      → Option QuoteRiskOwner
      → Result QuoteError QuoteDiff
  unfolding make_diff diff_price
  diff_decision q v tick now keep_quote none = ok (make_diff q none no_action [] "policy_keep")
  diff_decision q v tick now keep_quote (some o) =
      ok (make_diff q (some o) keep_live [] "policy_keep")
  diff_decision q v tick now no_quote none = ok (make_diff q none no_action [] q.reason)
  diff_decision q v tick now no_quote (some o) =
      ok (make_diff q (some o) cancel ("cancel" ∷ []) q.reason)
  diff_decision q v tick now quote none = ok (make_diff q none place ("place" ∷ []) q.reason)
  diff_decision q v tick now quote (some o) = diff_price q v o tick now q.price

  unfoldable pub diff_owned :
      DesiredQuote
      → QuoteSlotView
      → Decimal
      → ℤ
      → Option QuoteRiskOwner
      → Result QuoteError QuoteDiff
  unfolding make_diff is_blocked blocked_reason diff_decision
  diff_owned q v tick now owner =
      if is_blocked v
      then ok (make_diff q owner blocked_unknown [] (blocked_reason v))
      else if has_inflight v
      then ok (make_diff q owner keep_live [] "child_action_inflight")
      else diff_decision q v tick now q.decision owner

  unfoldable pub diff_slot :
      DesiredQuote → QuoteSlotView → Decimal → ℤ → Result QuoteError QuoteDiff
  unfolding diff_owned
  diff_slot q v tick now = do owner ← current_owner v; diff_owned q v tick now owner
