-- ===== src/QuoteCoordinator/Plans.antt =====
-- What a coordinated plan promises, crates/trading/src/trading/quote_coordinator.rs.
use Prim.Native.String.{String}
use hype_edge.Common.{
  ◌≡◌, refl, ◌⊎◌, ◌∙◌, ap, sym, Bool, true, false, none, some, [], ◌∷◌, arith, Bool-cases,
  Option-cases, inl, inr, All,
}
use hype_edge.Common.Int.{ℤ, ◌<ℤ◌, max_ℤ}
use hype_edge.Common.Result.{ok, bind_ok}
use hype_edge.Decimal.{Decimal}
use hype_edge.Decimal.WideInteger.{Wide}
use hype_edge.Quotes.{
  quote, no_quote, DesiredQuote, DesiredQuoteSet, QuoteSlotView, QuoteDiff, QuotePlan,
}
use hype_edge.QuoteCoordinator.{
  QuoteCoordinatorConfig, is_crossed, reject_crossed, no_quote_desired, validate_views,
  fence_reason,
}
use hype_edge.QuoteCoordinator.Coordinate.{plan_unfenced, plan_fenced, plan_working, coordinate}
use hype_edge.QuoteCoordinator.Slots.{is_placing, IsSound, MayPlace, diff_slot-IsSound}
use hype_edge.QuoteCoordinator.Fences.{plan_fenced-All, unfenced_diffs}

-- The candidate is not expired, newer than the plans of both slots and made for their revision.
abbrev pub IsCurrent : DesiredQuoteSet → QuoteSlotView → QuoteSlotView → ℤ → Type 0
IsCurrent s bid ask now =
    (now <ℤ s.valid_until)
    × (bid.plan_revision <ℤ s.revision)
    × (ask.plan_revision <ℤ s.revision)
    × (s.current_slot_revision ≡ max_ℤ bid.revision ask.revision)

fence-IsCurrent :
    (s : DesiredQuoteSet) (bid ask : QuoteSlotView) (now : ℤ)
    → fence_reason s bid ask now ≡ none
    → IsCurrent s bid ask now
unfolding fence_reason
fence-IsCurrent s bid ask now h = (ground arith, ground arith, ground arith, ground arith)

-- A crossed pair is withdrawn, so what is sound for the working quote is sound for the quote itself.
uncross :
    (w : Wide) (q q' : DesiredQuote) (x : Bool) (v : QuoteSlotView) (d : QuoteDiff)
    → (x ≡ true → q'.decision ≡ no_quote)
    → (x ≡ false → q' ≡ q)
    → IsSound w q' v d
    → (is_placing d.action ≡ false) ⊎ ((x ≡ false) × MayPlace w q v d)
uncross w q q' x v d withdrawn same (inl n) = inl n
uncross w q q' true v d withdrawn same (inr m) = absurd (quote-ne-no_quote (withdrawn refl) m.3)
  where
    quote-ne-no_quote : q'.decision ≡ no_quote → q'.decision ≡ quote → ⊥
    quote-ne-no_quote a b = cc
uncross w q q' false v d withdrawn same (inr m) = inr (refl, rw (sym (same refl)) m)

reject_crossed_withdraws :
    (s : DesiredQuoteSet)
    → is_crossed s ≡ true
    → ((reject_crossed s).bid.decision ≡ no_quote) × ((reject_crossed s).ask.decision ≡ no_quote)
unfolding reject_crossed no_quote_desired
reject_crossed_withdraws s h = ground arith

pub reject_crossed_keeps : (s : DesiredQuoteSet) → is_crossed s ≡ false → reject_crossed s ≡ s
unfolding reject_crossed
reject_crossed_keeps s h = ground arith

fence_of_working :
    (s : DesiredQuoteSet) (bid ask : QuoteSlotView) (now : ℤ)
    → fence_reason (reject_crossed s) bid ask now ≡ fence_reason s bid ask now
unfolding fence_reason reject_crossed
fence_of_working s bid ask now = elim (Bool-cases (is_crossed s)) [
  | inl e ↦ rw e refl
  | inr e ↦ rw e refl
]

module _ (w : Wide) (c : QuoteCoordinatorConfig) where
  pub working_plan :
      (s : DesiredQuoteSet) (bid ask : QuoteSlotView) (tick : Decimal) (now : ℤ) (plan : QuotePlan)
      → coordinate w c s bid ask tick now ≡ ok plan
      → ((r : String) × (plan_fenced w c (reject_crossed s) bid ask r ≡ ok plan))
        ⊎ ((fence_reason s bid ask now ≡ none)
            × (plan_unfenced w c (reject_crossed s) bid ask tick now ≡ ok plan))
  unfolding coordinate plan_working
  working_plan s bid ask tick now plan h =
      let parts =
        bind_ok
          (λ _.
            plan_working w c (reject_crossed s) bid ask tick now
              (fence_reason (reject_crossed s) bid ask now))
          (validate_views s bid ask) h in
      elim (Option-cases (fence_reason (reject_crossed s) bid ask now)) [
        | inl e ↦ inr (sym (fence_of_working s bid ask now) ∙ e, by_none e parts.2)
        | inr (r, e) ↦ inl (r, by_some r e parts.2)
      ]
    where
      by_none :
          fence_reason (reject_crossed s) bid ask now ≡ none
          → plan_working w c
              (reject_crossed s)
              bid
              ask
              tick
              now
              (fence_reason (reject_crossed s) bid ask now)
            ≡ ok plan
          → plan_unfenced w c (reject_crossed s) bid ask tick now ≡ ok plan
      by_none e k = sym (ap (plan_working w c (reject_crossed s) bid ask tick now) e) ∙ k

      by_some :
          (r : String)
          → fence_reason (reject_crossed s) bid ask now ≡ some r
          → plan_working w c
              (reject_crossed s)
              bid
              ask
              tick
              now
              (fence_reason (reject_crossed s) bid ask now)
            ≡ ok plan
          → plan_fenced w c (reject_crossed s) bid ask r ≡ ok plan
      by_some r e k = sym (ap (plan_working w c (reject_crossed s) bid ask tick now) e) ∙ k

  -- A plan that the coordinator makes is either fenced, and then it sends no new order; or it is
  -- not, and then the candidate has not expired, is newer than the plans of both slots and was
  -- made for their revision, the plan has one change for each side, and a change that sends an
  -- order is made only where bid and ask do not cross, the policy wants a quote, and every owner
  -- of the slot is known, of the current plan and not in flight: it fills an empty slot, or
  -- replaces the one current owner by a size that is at most what remains of it, with a fifth on
  -- top.
  pub coordinate_sound :
      (s : DesiredQuoteSet) (bid ask : QuoteSlotView) (tick : Decimal) (now : ℤ) (plan : QuotePlan)
      → coordinate w c s bid ask tick now ≡ ok plan
      → ((plan.fenced ≡ true) × All (λ d. is_placing d.action ≡ false) plan.diffs)
        ⊎ ((plan.fenced ≡ false)
            × IsCurrent s bid ask now
            × ((b : QuoteDiff) × (a : QuoteDiff) × (plan.diffs ≡ b ∷ a ∷ [])
                × ((is_placing b.action ≡ false)
                    ⊎ ((is_crossed s ≡ false) × MayPlace w s.bid bid b))
                × ((is_placing a.action ≡ false)
                    ⊎ ((is_crossed s ≡ false) × MayPlace w s.ask ask a))))
  coordinate_sound s bid ask tick now plan h = elim (working_plan s bid ask tick now plan h) [
    | inl (r, k) ↦ inl (plan_fenced-All w c (reject_crossed s) bid ask r plan k)
    | inr (f, k) ↦
        let ds = unfenced_diffs w c (reject_crossed s) bid ask tick now plan k in
        inr (
          ds.0,
          fence-IsCurrent s bid ask now f,
          (
            ds.1.0,
            ds.1.1,
            ds.1.2,
            uncross w s.bid (reject_crossed s).bid (is_crossed s) bid ds.1.0
                (λ x. (reject_crossed_withdraws s x).0)
                (λ x. ap (λ (t : DesiredQuoteSet). t.bid) (reject_crossed_keeps s x))
                (diff_slot-IsSound w c (reject_crossed s).bid bid tick now ds.1.0 ds.1.3),
            uncross w s.ask (reject_crossed s).ask (is_crossed s) ask ds.1.1
                (λ x. (reject_crossed_withdraws s x).1)
                (λ x. ap (λ (t : DesiredQuoteSet). t.ask) (reject_crossed_keeps s x))
                (diff_slot-IsSound w c (reject_crossed s).ask ask tick now ds.1.1 ds.1.4),
          ),
        )
  ]
