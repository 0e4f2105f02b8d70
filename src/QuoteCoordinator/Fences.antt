-- ===== src/QuoteCoordinator/Fences.antt =====
-- The changes of a fenced plan and of one that is not,
-- crates/trading/src/trading/quote_coordinator.rs.
use Prim.Native.String.{String}
use hype_edge.Common.{
  ◌≡◌, refl, ◌⊎◌, true, false, ◌||◌, Option, none, some, List, [], ◌∷◌, ◌++◌, arith, Bool-cases,
  inl, inr, All, All-append,
}
use hype_edge.Common.Int.{ℤ, pos, leb_ℤ}
use hype_edge.Common.Result.{ok, ◌>>=◌, bind_ok}
use hype_edge.Decimal.{Decimal}
use hype_edge.Decimal.WideInteger.{Wide}
use hype_edge.Quotes.{
  DesiredQuote, DesiredQuoteSet, QuoteRiskOwner, QuoteSlotView, QuoteDiff, QuotePlan, current_owner,
  is_no_quote,
}
use hype_edge.QuoteCoordinator.{QuoteCoordinatorConfig, is_blocked, make_plan}
use hype_edge.QuoteCoordinator.Diffs.{fenced_side, fenced_view, withdraw, make_diff, diff_slot}
use hype_edge.QuoteCoordinator.Coordinate.{fenced_diffs, plan_unfenced, plan_fenced}
use hype_edge.QuoteCoordinator.Slots.{is_placing}

module _ (w : Wide) (c : QuoteCoordinatorConfig) where
  fenced_side-All :
      (q : DesiredQuote) (v : QuoteSlotView) (o : Option QuoteRiskOwner)
      → All (λ d. is_placing d.action ≡ false) (fenced_side w c q v o)
  unfolding fenced_side withdraw make_diff is_placing
  fenced_side-All q v none = ground arith
  fenced_side-All q v (some o) = ground arith

  pub fenced_view_parts :
      (q : DesiredQuote) (v : QuoteSlotView) (ds : List QuoteDiff)
      → fenced_view w c q v ≡ ok ds
      → ((ds ≡ []) × (is_no_quote q.decision ≡ false))
        ⊎ ((o : Option QuoteRiskOwner) × (current_owner v ≡ ok o) × (ds ≡ fenced_side w c q v o))
  unfolding fenced_view
  fenced_view_parts q v ds h = elim (Bool-cases (is_blocked v || is_no_quote q.decision)) [
    | inl e ↦
        let parts =
          bind_ok (λ o. ok (fenced_side w c q v o)) {result = ds} (current_owner v)
            (ground arith) in
        inr (parts.0, parts.1, cc (parts.2))
    | inr e ↦ inl (ground arith, ground arith)
  ]

  fenced_view-All :
      (q : DesiredQuote) (v : QuoteSlotView) (ds : List QuoteDiff)
      → fenced_view w c q v ≡ ok ds
      → All (λ d. is_placing d.action ≡ false) ds
  fenced_view-All q v ds h = elim (fenced_view_parts q v ds h) [
    | inl (e, n) ↦ rw e tt
    | inr (o, k, e) ↦ rw e (fenced_side-All q v o)
  ]

  pub fenced_diffs_parts :
      (s : DesiredQuoteSet) (bid ask : QuoteSlotView) (ds : List QuoteDiff)
      → fenced_diffs w c s bid ask ≡ ok ds
      → (b : List QuoteDiff) × (a : List QuoteDiff) × (fenced_view w c s.bid bid ≡ ok b)
        × (fenced_view w c s.ask ask ≡ ok a)
        × (ds ≡ b ++ a)
  unfolding fenced_diffs
  fenced_diffs_parts s bid ask ds h =
      let bs =
        bind_ok (λ b. fenced_view w c s.ask ask >>= λ a. ok (b ++ a)) (fenced_view w c s.bid bid)
          h in
      let xs = bind_ok (λ a. ok (bs.0 ++ a)) (fenced_view w c s.ask ask) bs.2 in
      (bs.0, xs.0, bs.1, xs.1, cc (xs.2))

  fenced_diffs-All :
      (s : DesiredQuoteSet) (bid ask : QuoteSlotView) (ds : List QuoteDiff)
      → fenced_diffs w c s bid ask ≡ ok ds
      → All (λ d. is_placing d.action ≡ false) ds
  fenced_diffs-All s bid ask ds h =
      let parts = fenced_diffs_parts s bid ask ds h in
      rw parts.4 (
        All-append (λ d. is_placing d.action ≡ false) parts.0 parts.1
          (fenced_view-All s.bid bid parts.0 parts.2) (fenced_view-All s.ask ask parts.1 parts.3))

  -- A plan that is fenced sends nothing.
  pub plan_fenced-All :
      (s : DesiredQuoteSet) (bid ask : QuoteSlotView) (r : String) (plan : QuotePlan)
      → plan_fenced w c s bid ask r ≡ ok plan
      → (plan.fenced ≡ true) × All (λ d. is_placing d.action ≡ false) plan.diffs
  unfolding plan_fenced make_plan
  plan_fenced-All s bid ask r plan h =
      let parts = bind_ok (λ ds. ok (make_plan s ds (some r))) (fenced_diffs w c s bid ask) h in
      let e : plan ≡ make_plan s parts.0 (some r) = cc (parts.2) in
      rw e (refl, fenced_diffs-All s bid ask parts.0 parts.1)

  pub plan_fenced_diffs :
      (s : DesiredQuoteSet) (bid ask : QuoteSlotView) (r : String) (plan : QuotePlan)
      → plan_fenced w c s bid ask r ≡ ok plan
      → fenced_diffs w c s bid ask ≡ ok plan.diffs
  unfolding plan_fenced make_plan
  plan_fenced_diffs s bid ask r plan h =
      let parts = bind_ok (λ ds. ok (make_plan s ds (some r))) (fenced_diffs w c s bid ask) h in
      let e : plan ≡ make_plan s parts.0 (some r) = cc (parts.2) in rw e (parts.1)

  pub unfenced_diffs :
      (s : DesiredQuoteSet) (bid ask : QuoteSlotView) (tick : Decimal) (now : ℤ) (plan : QuotePlan)
      → plan_unfenced w c s bid ask tick now ≡ ok plan
      → (plan.fenced ≡ false)
        × ((b : QuoteDiff) × (a : QuoteDiff) × (plan.diffs ≡ b ∷ a ∷ [])
            × (diff_slot w c s.bid bid tick now ≡ ok b)
            × (diff_slot w c s.ask ask tick now ≡ ok a))
  unfolding plan_unfenced make_plan
  unfenced_diffs s bid ask tick now plan h = elim (Bool-cases (leb_ℤ tick.raw (pos 0))) [
    | inl t ↦ cc
    | inr t ↦ built (ground arith)
  ]
    where
      built :
          (diff_slot w c s.bid bid tick now >>= λ b.
          diff_slot w c s.ask ask tick now >>= λ a. ok (make_plan s (b ∷ a ∷ []) none))
            ≡ ok plan
          → (plan.fenced ≡ false)
            × ((b : QuoteDiff) × (a : QuoteDiff) × (plan.diffs ≡ b ∷ a ∷ [])
                × (diff_slot w c s.bid bid tick now ≡ ok b)
                × (diff_slot w c s.ask ask tick now ≡ ok a))
      built k =
          let bs =
            bind_ok
              (λ b. diff_slot w c s.ask ask tick now >>= λ a. ok (make_plan s (b ∷ a ∷ []) none))
              (diff_slot w c s.bid bid tick now) k in
          let xs =
            bind_ok (λ a. ok (make_plan s (bs.0 ∷ a ∷ []) none)) (diff_slot w c s.ask ask tick now)
              bs.2 in
          let e : plan ≡ make_plan s (bs.0 ∷ xs.0 ∷ []) none = cc (xs.2) in
          rw e (refl, (bs.0, xs.0, refl, bs.1, xs.1))
