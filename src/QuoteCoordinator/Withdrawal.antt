-- ===== src/QuoteCoordinator/Withdrawal.antt =====
-- A withdrawn quote is cancelled, also behind a fence,
-- crates/trading/src/trading/quote_coordinator.rs.
use mathlib.Core.List.{Memᴰ}
use hype_edge.Common.{◌≡◌, refl, ◌∙◌, ap, sym, false, Option, some, List, [], ◌∷◌, arith, inl, inr}
use hype_edge.Common.Members.{Memᴰ-append_right}
use hype_edge.Common.Int.{ℤ}
use hype_edge.Common.Result.{ok, bind_ok}
use hype_edge.Decimal.{Decimal}
use hype_edge.Decimal.WideInteger.{Wide}
use hype_edge.Order.{Side, buy, sell}
use hype_edge.Quotes.{
  no_quote, cancel, DesiredQuote, DesiredQuoteSet, QuoteRiskOwner, QuoteSlotView, QuoteDiff,
  QuotePlan, has_unknown, has_inflight, has_orphaned_owner, current_owner,
}
use hype_edge.QuoteCoordinator.{QuoteCoordinatorConfig, is_blocked, is_crossed, reject_crossed}
use hype_edge.QuoteCoordinator.Diffs.{
  fenced_side, fenced_view, withdraw, make_diff, diff_slot, diff_owned, diff_decision,
}
use hype_edge.QuoteCoordinator.Coordinate.{fenced_diffs, plan_unfenced, coordinate}
use hype_edge.QuoteCoordinator.Fences.{
  unfenced_diffs, plan_fenced_diffs, fenced_view_parts, fenced_diffs_parts,
}
use hype_edge.QuoteCoordinator.Plans.{working_plan, reject_crossed_keeps}

-- The quote of a side, and the slot of a side.
abbrev pub quote_of : Side → DesiredQuoteSet → DesiredQuote
quote_of buy s = s.bid
quote_of sell s = s.ask

abbrev pub view_of : Side → QuoteSlotView → QuoteSlotView → QuoteSlotView
view_of buy bid ask = bid
view_of sell bid ask = ask

-- The change of a slot is a cancel of this owner.
abbrev pub IsCancelOf : QuoteRiskOwner → QuoteDiff → Type 0
IsCancelOf o d = (d.action ≡ cancel) × (d.source ≡ some o)

abbrev pub IsSettled : DesiredQuote → QuoteSlotView → QuoteRiskOwner → Type 0
IsSettled q v o =
    (q.decision ≡ no_quote)
    × (has_unknown v ≡ false)
    × (has_orphaned_owner v ≡ false)
    × (has_inflight v ≡ false)
    × (current_owner v ≡ ok (some o))

uncrossed :
    (side : Side) (s : DesiredQuoteSet)
    → (quote_of side s).decision ≡ no_quote
    → is_crossed s ≡ false
unfolding is_crossed
uncrossed buy s h = ground arith
uncrossed sell s h = ground arith

side_cancel :
    (w : Wide) (c : QuoteCoordinatorConfig) (q : DesiredQuote) (v : QuoteSlotView)
    (o : QuoteRiskOwner) (x : Option QuoteRiskOwner)
    → IsSettled q v o
    → current_owner v ≡ ok x
    → fenced_side w c q v x ≡ withdraw w c q (some o) ∷ []
unfolding fenced_side is_blocked
side_cancel w c q v o x h e = ground arith

module _ (w : Wide) (c : QuoteCoordinatorConfig) where
  fenced_view_cancel :
      (q : DesiredQuote) (v : QuoteSlotView) (o : QuoteRiskOwner) (ds : List QuoteDiff)
      → IsSettled q v o
      → fenced_view w c q v ≡ ok ds
      → ds ≡ withdraw w c q (some o) ∷ []
  fenced_view_cancel q v o ds h e = elim (fenced_view_parts w c q v ds e) [
    | inl (none_left, n) ↦ ground arith
    | inr (x, k, l) ↦ l ∙ settled x k
  ]
    where
      settled :
          (x : Option QuoteRiskOwner)
          → current_owner v ≡ ok x
          → fenced_side w c q v x ≡ withdraw w c q (some o) ∷ []
      settled x k = side_cancel w c q v o x h k

  withdraw-IsCancelOf :
      (q : DesiredQuote) (o : QuoteRiskOwner) → IsCancelOf o (withdraw w c q (some o))
  unfolding withdraw make_diff
  withdraw-IsCancelOf q o = (refl, refl)

  diff_owned_cancel :
      (q : DesiredQuote) (v : QuoteSlotView) (o : QuoteRiskOwner) (tick : Decimal) (now : ℤ)
      → IsSettled q v o
      → diff_owned w c q v tick now (some o) ≡ ok (withdraw w c q (some o))
  unfolding diff_owned diff_decision is_blocked withdraw make_diff
  diff_owned_cancel q v o tick now h = ground arith

  diff_slot_cancel :
      (q : DesiredQuote) (v : QuoteSlotView) (o : QuoteRiskOwner) (tick : Decimal) (now : ℤ)
      (d : QuoteDiff)
      → IsSettled q v o
      → diff_slot w c q v tick now ≡ ok d
      → d ≡ withdraw w c q (some o)
  unfolding diff_slot
  diff_slot_cancel q v o tick now d h e =
      let parts = bind_ok (diff_owned w c q v tick now) (current_owner v) e in
      same parts.0 parts.1 parts.2
    where
      same :
          (x : Option QuoteRiskOwner)
          → current_owner v ≡ ok x
          → diff_owned w c q v tick now x ≡ ok d
          → d ≡ withdraw w c q (some o)
      same x p k = cc (h.4, diff_owned_cancel q v o tick now h)

  fenced_cancel :
      (s : DesiredQuoteSet) (bid ask : QuoteSlotView) (side : Side) (o : QuoteRiskOwner)
      (ds : List QuoteDiff)
      → fenced_diffs w c s bid ask ≡ ok ds
      → IsSettled (quote_of side s) (view_of side bid ask) o
      → Memᴰ (withdraw w c (quote_of side s) (some o)) ds
  fenced_cancel s bid ask buy o ds h k =
      let parts = fenced_diffs_parts w c s bid ask ds h in
      rw (parts.4, fenced_view_cancel s.bid bid o parts.0 k parts.2) (Memᴰ.head refl)
  fenced_cancel s bid ask sell o ds h k =
      let parts = fenced_diffs_parts w c s bid ask ds h in
      rw (parts.4, fenced_view_cancel s.ask ask o parts.1 k parts.3)
        (Memᴰ-append_right parts.0 _ (Memᴰ.head refl))

  unfenced_cancel :
      (s : DesiredQuoteSet) (bid ask : QuoteSlotView) (tick : Decimal) (now : ℤ) (side : Side)
      (o : QuoteRiskOwner) (plan : QuotePlan)
      → plan_unfenced w c s bid ask tick now ≡ ok plan
      → IsSettled (quote_of side s) (view_of side bid ask) o
      → Memᴰ (withdraw w c (quote_of side s) (some o)) plan.diffs
  unfenced_cancel s bid ask tick now buy o plan h k =
      let ds = unfenced_diffs w c s bid ask tick now plan h in
      rw (ds.1.2, diff_slot_cancel s.bid bid o tick now ds.1.0 k ds.1.3) (Memᴰ.head refl)
  unfenced_cancel s bid ask tick now sell o plan h k =
      let ds = unfenced_diffs w c s bid ask tick now plan h in
      rw (ds.1.2, diff_slot_cancel s.ask ask o tick now ds.1.1 k ds.1.4)
        (Memᴰ.tail (Memᴰ.head refl))

  -- Where the policy withdraws a side whose slot has a current owner and no owner that is
  -- unknown, orphaned or in flight, every plan that is made, fenced or not, has a change that
  -- cancels this owner.
  pub coordinate_withdraws :
      (s : DesiredQuoteSet) (bid ask : QuoteSlotView) (tick : Decimal) (now : ℤ) (plan : QuotePlan)
      (side : Side) (o : QuoteRiskOwner)
      → coordinate w c s bid ask tick now ≡ ok plan
      → IsSettled (quote_of side s) (view_of side bid ask) o
      → (d : QuoteDiff) × Memᴰ d plan.diffs × IsCancelOf o d
  coordinate_withdraws s bid ask tick now plan side o h k =
      let same : reject_crossed s ≡ s = reject_crossed_keeps s (uncrossed side s k.0) in
      elim (working_plan w c s bid ask tick now plan h) [
        | inl (r, e) ↦ (
          withdraw w c (quote_of side s) (some o),
          fenced_cancel s bid ask side o plan.diffs
              (sym (ap (λ (t : DesiredQuoteSet). fenced_diffs w c t bid ask) same)
                ∙ plan_fenced_diffs w c (reject_crossed s) bid ask r plan e)
              k,
          withdraw-IsCancelOf (quote_of side s) o,
        )
        | inr (f, e) ↦ (
          withdraw w c (quote_of side s) (some o),
          unfenced_cancel s bid ask tick now side o plan
              (sym (ap (λ (t : DesiredQuoteSet). plan_unfenced w c t bid ask tick now) same) ∙ e) k,
          withdraw-IsCancelOf (quote_of side s) o,
        )
      ]
