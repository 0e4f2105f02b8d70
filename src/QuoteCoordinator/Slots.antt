-- ===== src/QuoteCoordinator/Slots.antt =====
-- What a slot's change promises, crates/trading/src/trading/quote_coordinator.rs.
use hype_edge.Common.{
  ◌≡◌, refl, ◌⊎◌, Bool, true, false, Option, none, some, arith, Bool-cases, Option-cases, ap, ◌∙◌,
  inl, inr,
}
use hype_edge.Common.Int.{ℤ, ◌≤ℤ◌}
use hype_edge.Common.Result.{ok, bind_ok}
use hype_edge.Decimal.{Decimal, abs, sub, mul, div, min}
use hype_edge.Decimal.WideInteger.{Wide}
use hype_edge.Quotes.{
  QuoteDecision, quote, keep_quote, no_quote, QuoteAction, place, cancel_then_place, DesiredQuote,
  QuoteRiskOwner, QuoteSlotView, QuoteDiff, has_unknown, has_inflight, has_orphaned_owner,
  current_owner,
}
use hype_edge.QuoteCoordinator.{QuoteCoordinatorConfig, is_blocked}
use hype_edge.QuoteCoordinator.Diffs.{
  make_diff, shrink_factor, clamp_size, clamp_to_partial_fill, replace_owner, diff_price,
  diff_decision, diff_owned, diff_slot,
}

-- Whether an action sends a new order.
unfoldable pub is_placing : QuoteAction → Bool
is_placing place = true
is_placing cancel_then_place = true
is_placing _ = false

module _ (w : Wide) where
  -- A size that does not quote more than what remains of the owner, with a fifth on top.
  abbrev pub IsShrunk : Option Decimal → QuoteRiskOwner → Type 0
  IsShrunk size o =
      (s : Decimal) × (size ≡ some s)
      × ((s.raw ≤ℤ o.remaining_size.raw) ⊎ (s.raw ≤ℤ (mul w o.remaining_size shrink_factor).raw))

  -- What stands behind an order that a diff sends: the slot's owners are all known, of the current
  -- plan and not in flight, and the policy wants a quote. It fills an empty slot, or replaces the
  -- one owner by a size that is shrunk to what remains.
  abbrev pub MayPlace : DesiredQuote → QuoteSlotView → QuoteDiff → Type 0
  MayPlace q v d =
      (has_unknown v ≡ false)
      × (has_orphaned_owner v ≡ false)
      × (has_inflight v ≡ false)
      × (q.decision ≡ quote)
      × (((current_owner v ≡ ok none) × (d.desired ≡ q))
          ⊎ ((o : QuoteRiskOwner) × (current_owner v ≡ ok (some o))
              × (d.source ≡ some o)
              × IsShrunk d.desired.size o))

  abbrev pub IsSound : DesiredQuote → QuoteSlotView → QuoteDiff → Type 0
  IsSound q v d = (is_placing d.action ≡ false) ⊎ MayPlace q v d

  clamp_size-IsShrunk :
      (size : Option Decimal) (o : QuoteRiskOwner) (s : Decimal)
      → clamp_size w size o.remaining_size ≡ some s
      → IsShrunk (some s) o
  unfolding clamp_size min
  clamp_size-IsShrunk none o s h = cc
  clamp_size-IsShrunk (some size) o s h = (s, refl, ground arith)

module _ (w : Wide) (c : QuoteCoordinatorConfig) where
  replace_owner_cases :
      (q : DesiredQuote) (v : QuoteSlotView) (o : QuoteRiskOwner) (ticks size : Decimal) (now : ℤ)
      → (is_placing (replace_owner w c q v o ticks size now).action ≡ false)
        ⊎ (((replace_owner w c q v o ticks size now).source ≡ some o)
            × ((replace_owner w c q v o ticks size now).desired ≡ q))
  unfolding replace_owner make_diff is_placing
  replace_owner_cases q v o ticks size now = ground arith

  diff_price-IsSound :
      (q : DesiredQuote) (v : QuoteSlotView) (o : QuoteRiskOwner) (tick : Decimal) (now : ℤ)
      (price : Option Decimal) (d : QuoteDiff)
      → diff_price w c q v o tick now price ≡ ok d
      → (is_placing d.action ≡ false) ⊎ ((d.source ≡ some o) × IsShrunk w d.desired.size o)
  unfolding diff_price clamp_to_partial_fill
  diff_price-IsSound q v o tick now none d h = cc
  diff_price-IsSound q v o tick now (some p) d h =
      elim (Option-cases (div w (abs (sub p o.price)) tick)) [
        | inl e ↦ ground arith
        | inr (ticks, e) ↦ elim (Option-cases (clamp_size w q.size o.remaining_size)) [
          | inl k ↦ ground arith
          | inr (size, k) ↦ placed (clamp_to_partial_fill w q o) ticks size refl k (ground arith)
        ]
      ]
    where
      placed :
          (q' : DesiredQuote) (ticks size : Decimal)
          → q'.size ≡ clamp_size w q.size o.remaining_size
          → clamp_size w q.size o.remaining_size ≡ some size
          → d ≡ replace_owner w c q' v o ticks size now
          → (is_placing d.action ≡ false) ⊎ ((d.source ≡ some o) × IsShrunk w d.desired.size o)
      placed q' ticks size e k r = elim (replace_owner_cases q' v o ticks size now) [
        | inl n ↦ inl (rw r n)
        | inr (src, des) ↦ inr (rw r src, rw (r, des, e, k) (clamp_size-IsShrunk w q.size o size k))
      ]

  -- The action of a decision on the owner of a slot that is settled.
  diff_decision-IsSound :
      (q : DesiredQuote) (v : QuoteSlotView) (tick : Decimal) (now : ℤ) (x : QuoteDecision)
      (owner : Option QuoteRiskOwner) (d : QuoteDiff)
      → diff_decision w c q v tick now x owner ≡ ok d
      → (is_placing d.action ≡ false)
        ⊎ ((x ≡ quote)
            × (((owner ≡ none) × (d.desired ≡ q))
                ⊎ ((o : QuoteRiskOwner) × (owner ≡ some o)
                    × (d.source ≡ some o)
                    × IsShrunk w d.desired.size o)))
  unfolding diff_decision make_diff is_placing
  diff_decision-IsSound q v tick now keep_quote none d h = inl (ground arith)
  diff_decision-IsSound q v tick now keep_quote (some o) d h = inl (ground arith)
  diff_decision-IsSound q v tick now no_quote none d h = inl (ground arith)
  diff_decision-IsSound q v tick now no_quote (some o) d h = inl (ground arith)
  diff_decision-IsSound q v tick now quote none d h = inr (refl, inl (refl, ground arith))
  diff_decision-IsSound q v tick now quote (some o) d h =
      elim (diff_price-IsSound q v o tick now q.price d h) [
        | inl n ↦ inl n
        | inr (s, k) ↦ inr (refl, inr (o, refl, s, k))
      ]

  diff_owned-IsSound :
      (q : DesiredQuote) (v : QuoteSlotView) (tick : Decimal) (now : ℤ)
      (owner : Option QuoteRiskOwner) (d : QuoteDiff)
      → current_owner v ≡ ok owner
      → diff_owned w c q v tick now owner ≡ ok d
      → IsSound w q v d
  unfolding diff_owned make_diff is_placing is_blocked
  diff_owned-IsSound q v tick now owner d e h = elim (Bool-cases (has_unknown v)) [
    | inl u ↦ inl (ground arith)
    | inr u ↦ elim (Bool-cases (has_orphaned_owner v)) [
      | inl p ↦ inl (ground arith)
      | inr p ↦ elim (Bool-cases (has_inflight v)) [
        | inl f ↦ inl (ground arith)
        | inr f ↦ elim (diff_decision-IsSound q v tick now q.decision owner d (ground arith)) [
          | inl n ↦ inl n
          | inr (x, inl (n, k)) ↦
              inr (u, p, f, x, inl (e ∙ ap (λ (t : Option QuoteRiskOwner). ok t) n, k))
          | inr (x, inr (o, n, s, k)) ↦
              inr (u, p, f, x, inr (o, e ∙ ap (λ (t : Option QuoteRiskOwner). ok t) n, s, k))
        ]
      ]
    ]
  ]

  pub diff_slot-IsSound :
      (q : DesiredQuote) (v : QuoteSlotView) (tick : Decimal) (now : ℤ) (d : QuoteDiff)
      → diff_slot w c q v tick now ≡ ok d
      → IsSound w q v d
  unfolding diff_slot
  diff_slot-IsSound q v tick now d h =
      let parts = bind_ok (diff_owned w c q v tick now) (current_owner v) h in
      diff_owned-IsSound q v tick now parts.0 d parts.1 parts.2
