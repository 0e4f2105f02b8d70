-- ===== src/RiskChecker/Admission.antt =====
-- Which orders the checker admits, crates/trading/src/risk/checker.rs.
use Prim.Native.String.{String}
use mathlib.Core.Path.{subst}
use hype_edge.Common.{
  ◌≡◌, ◌↔◌, ◌⊎◌, inl, inr, refl, sym, true, false, Option, some, List, [], ◌∷◌, ◌++◌, arith,
  Bool-cases, Option-cases,
}
use hype_edge.Common.Int.{ℤ, pos, leb_ℤ, ◌≤ℤ◌, ◌<ℤ◌}
use hype_edge.Decimal.{Decimal, decimal_one, sub, mul, div, is_zero}
use hype_edge.Decimal.Quotients.{div_total}
use hype_edge.Decimal.WideInteger.{Wide}
use hype_edge.Safety.{OrderIntent}
use hype_edge.Tracker.{AccountState, Position}
use hype_edge.RiskChecker.{
  Floats, RiskCheckResult, AccountView, RiskLimits, or_zero_float, drawdown_pct, is_stale,
  max_notional, notional_of, spot_bounded, check_spot, perp_bounded, perp_leveraged, check_perp,
  check_priced, check_account, run_checks, effective_price, is_sell, times, pass,
}

positive-ne-zero : (d : Decimal) → pos 0 <ℤ d.raw → is_zero d ≡ false
unfolding is_zero
positive-ne-zero d h = ground arith

pub div_some : (w : Wide) (a b : Decimal) → pos 0 <ℤ b.raw → (q : Decimal) × (div w a b ≡ some q)
div_some w a b h = elim (Option-cases (div w a b)) [
  | inl e ↦ absurd (div_total w a b (positive-ne-zero b h) e)
  | inr found ↦ found
]

module _ (fl : Floats) (w : Wide) (l : RiskLimits fl) where
  -- The account is not drawn down to its limit and has equity.
  abbrev pub IsSolvent : AccountState → Type 0
  IsSolvent a =
      ((d : fl.Float) × (drawdown_pct fl w a ≡ some d) × (fl.is_ge d l.max_drawdown_pct ≡ false))
      × (pos 0 <ℤ a.equity.raw)

  -- A spot order that reduces risk is a sell; one that does not needs an account that is solvent, and
  -- a buy is within the cap.
  abbrev pub IsSpotAdmitted : OrderIntent → AccountState → Decimal → Type 0
  IsSpotAdmitted i a price =
      (i.is_reduce_only ≡ false)
      × (((i.risk_reducing ≡ true) × (is_sell i.side ≡ true))
          ⊎ ((i.risk_reducing ≡ false)
              × IsSolvent a
              × ((is_sell i.side ≡ true)
                  ⊎ ((is_sell i.side ≡ false)
                      × ((mul w i.size price).raw ≤ℤ (max_notional fl w l a).raw)))))

  -- The notional of a perpetual position is within the leverage and the cap.
  abbrev pub IsPerpAdmitted : AccountState → Decimal → Type 0
  IsPerpAdmitted a notional =
      IsSolvent a
      × ((leverage : Decimal) × (div w notional a.equity ≡ some leverage)
          × (leverage.raw ≤ℤ (times l.max_leverage).raw))
      × (notional.raw ≤ℤ (max_notional fl w l a).raw)

  pub drawdown_some : (a : AccountState) → (d : fl.Float) × (drawdown_pct fl w a ≡ some d)
  unfolding drawdown_pct
  drawdown_some a = elim (Bool-cases (leb_ℤ a.peak_equity.raw (pos 0))) [
    | inl n ↦ (fl.zero_float, ground arith)
    | inr n ↦
        let r = div_some w a.equity a.peak_equity (ground arith) in
        (
          fl.max_float (or_zero_float fl (fl.of_decimal (sub decimal_one r.0))) fl.zero_float,
          ground (arith, r.1),
        )
  ]

  spot_bounded_iff :
      (i : OrderIntent) (a : AccountState) (price : Decimal) (c : List String) (d : fl.Float)
      → drawdown_pct fl w a ≡ some d
      → ((spot_bounded fl w l i a price c d).passed ≡ true) ↔ (
          IsSolvent a
          × ((is_sell i.side ≡ true)
              ⊎ ((is_sell i.side ≡ false)
                  × ((mul w i.size price).raw ≤ℤ (max_notional fl w l a).raw))))
  unfolding spot_bounded
  spot_bounded_iff i a price c d e = (forth, back)
    where
      forth :
          (spot_bounded fl w l i a price c d).passed ≡ true
          → IsSolvent a
            × ((is_sell i.side ≡ true)
                ⊎ ((is_sell i.side ≡ false)
                    × ((mul w i.size price).raw ≤ℤ (max_notional fl w l a).raw)))
      forth h = (
        ((d, e, ground arith), ground arith),
        elim (Bool-cases (is_sell i.side)) [ inl s ↦ inl s | inr s ↦ inr (s, ground arith) ],
      )

      back :
          IsSolvent a
            × ((is_sell i.side ≡ true)
                ⊎ ((is_sell i.side ≡ false)
                    × ((mul w i.size price).raw ≤ℤ (max_notional fl w l a).raw)))
          → (spot_bounded fl w l i a price c d).passed ≡ true
      back h = ground (arith, h)

  perp_leveraged_iff :
      (a : AccountState) (notional : Decimal) (c : List String) (d : fl.Float)
      → drawdown_pct fl w a ≡ some d
      → ((r : RiskCheckResult) × (perp_leveraged fl w l a notional c d ≡ some r)
          × (r.passed ≡ true))
        ↔ IsPerpAdmitted a notional
  unfolding perp_leveraged perp_bounded
  perp_leveraged_iff a notional c d e = (forth, back)
    where
      forth :
          (r : RiskCheckResult) × (perp_leveraged fl w l a notional c d ≡ some r)
            × (r.passed ≡ true)
          → IsPerpAdmitted a notional
      forth h =
          let q = div_some w notional a.equity (ground (arith, h.1, h.2)) in
          (
            ((d, e, ground (arith, h.1, h.2)), ground (arith, h.1, h.2)),
            (q.0, q.1, ground (arith, h.1, h.2, q.1)),
            ground (arith, h.1, h.2, q.1),
          )

      back :
          IsPerpAdmitted a notional
          → (r : RiskCheckResult) × (perp_leveraged fl w l a notional c d ≡ some r)
            × (r.passed ≡ true)
      back h = (
        pass ((c ++ "max_leverage" ∷ []) ++ "max_position_pct" ∷ []),
        ground (arith, h.0.0.1, h.0.0.2, h.1.1),
        refl,
      )

  -- A run that ends, and its result passes.
  abbrev Passes : Option RiskCheckResult → Type 0
  Passes run = (r : RiskCheckResult) × (run ≡ some r) × (r.passed ≡ true)

  check_spot_iff :
      (i : OrderIntent) (a : AccountState) (price : Decimal) (c : List String)
      → Passes (check_spot fl w l i a price c) ↔ IsSpotAdmitted i a price
  unfolding check_spot
  check_spot_iff i a price c = let d = drawdown_some a in (forth d.0 d.1, back d.0 d.1)
    where
      opening : List String
      opening = (c ++ "spot_balance_validated_upstream" ∷ []) ++ "max_drawdown" ∷ []

      forth :
          (d : fl.Float)
          → drawdown_pct fl w a ≡ some d
          → Passes (check_spot fl w l i a price c)
          → IsSpotAdmitted i a price
      forth d e h = elim (Bool-cases i.risk_reducing) [
        | inl r ↦ (ground (arith, h.1, h.2), inl (r, ground (arith, h.1, h.2)))
        | inr r ↦
            let b = (spot_bounded_iff i a price opening d e).0 (ground (arith, h.1, h.2)) in
            (ground (arith, h.1, h.2), inr (r, b.0, b.1))
      ]

      back :
          (d : fl.Float)
          → drawdown_pct fl w a ≡ some d
          → IsSpotAdmitted i a price
          → Passes (check_spot fl w l i a price c)
      back d e (n, inl (r, s)) = (
        pass ((c ++ "spot_balance_validated_upstream" ∷ []) ++ "risk_reducing_exit" ∷ []),
        ground arith,
        refl,
      )
      back d e (n, inr (r, solvent, bound)) = (
        spot_bounded fl w l i a price opening d,
        ground arith,
        (spot_bounded_iff i a price opening d e).1 (solvent, bound),
      )

  check_perp_iff :
      (i : OrderIntent) (a : AccountState) (p : Option Position) (price : Decimal) (c : List String)
      → Passes (check_perp fl w l i a p price c) ↔ IsPerpAdmitted a (notional_of fl w l i p price)
  unfolding check_perp
  check_perp_iff i a p price c =
      let d = drawdown_some a in
      let known : check_perp fl w l i a p price c
          ≡ perp_leveraged fl w l a (notional_of fl w l i p price) (c ++ "max_drawdown" ∷ []) d.0 =
        ground (arith, d.1) in
      subst (λ run. Passes run ↔ IsPerpAdmitted a (notional_of fl w l i p price)) (sym known)
        (perp_leveraged_iff a (notional_of fl w l i p price) (c ++ "max_drawdown" ∷ []) d.0 d.1)

  -- What the checker admits: the account is known and fresh, the price positive, and the order of its
  -- kind is admitted.
  abbrev pub IsAdmitted : AccountView → OrderIntent → Option Decimal → ℤ → Type 0
  IsAdmitted v i reference now =
      (a : AccountState) × (v.get_account_state ≡ some a)
      × (is_stale fl w l v.last_update_ts now ≡ false)
      × (pos 0 <ℤ (effective_price i (v.get_position i.symbol) reference).raw)
      × (((i.is_spot ≡ true)
            × IsSpotAdmitted i a (effective_price i (v.get_position i.symbol) reference))
          ⊎ ((i.is_spot ≡ false)
              × IsPerpAdmitted a (
                  notional_of fl w l i (v.get_position i.symbol)
                    (effective_price i (v.get_position i.symbol) reference))))

  check_priced_iff :
      (i : OrderIntent) (a : AccountState) (p : Option Position) (price : Decimal) (c : List String)
      → Passes (check_priced fl w l i a p price c) ↔ (
          (pos 0 <ℤ price.raw)
          × (((i.is_spot ≡ true) × IsSpotAdmitted i a price)
              ⊎ ((i.is_spot ≡ false) × IsPerpAdmitted a (notional_of fl w l i p price))))
  unfolding check_priced
  check_priced_iff i a p price c = (forth, back)
    where
      forth :
          Passes (check_priced fl w l i a p price c)
          → (pos 0 <ℤ price.raw)
            × (((i.is_spot ≡ true) × IsSpotAdmitted i a price)
                ⊎ ((i.is_spot ≡ false) × IsPerpAdmitted a (notional_of fl w l i p price)))
      forth (r, e, k) = elim (Bool-cases i.is_spot) [
        | inl s ↦ (ground arith, inl (s, (check_spot_iff i a price c).0 (r, ground arith, k)))
        | inr s ↦ (ground arith, inr (s, (check_perp_iff i a p price c).0 (r, ground arith, k)))
      ]

      back :
          (pos 0 <ℤ price.raw)
            × (((i.is_spot ≡ true) × IsSpotAdmitted i a price)
                ⊎ ((i.is_spot ≡ false) × IsPerpAdmitted a (notional_of fl w l i p price)))
          → Passes (check_priced fl w l i a p price c)
      back (n, inl (s, h)) =
          let r = (check_spot_iff i a price c).1 h in (r.0, ground (arith, r.1), r.2)
      back (n, inr (s, h)) =
          let r = (check_perp_iff i a p price c).1 h in (r.0, ground (arith, r.1), r.2)

  -- The checks pass an order exactly when the account state is known and fresh, the effective
  -- price is positive, and: a spot order is not reduce-only, and either reduces risk and sells,
  -- or the account is not drawn down to the limit and has equity and the order sells or its
  -- notional is within the cap; a perpetual order finds the account not drawn down to the limit
  -- and with equity, and the resulting notional within the leverage and the cap.
  pub run_checks_iff :
      (v : AccountView) (i : OrderIntent) (reference : Option Decimal) (now : ℤ)
      → ((r : RiskCheckResult) × (run_checks fl w l v i reference now ≡ some r) × (r.passed ≡ true))
        ↔ IsAdmitted v i reference now
  unfolding run_checks check_account
  run_checks_iff v i reference now = (forth, back)
    where
      forth : Passes (run_checks fl w l v i reference now) → IsAdmitted v i reference now
      forth (r, e, k) = elim (Option-cases v.get_account_state) [
        | inl g ↦ ground arith
        | inr (a, g) ↦ elim (Bool-cases (is_stale fl w l v.last_update_ts now)) [
          | inl s ↦ ground arith
          | inr s ↦
              let parts =
                (check_priced_iff i a (v.get_position i.symbol)
                    (effective_price i (v.get_position i.symbol) reference)
                    ("account_state_available" ∷ "account_state_fresh" ∷ [])).0
                  (r, ground arith, k) in
              (a, g, s, parts.0, parts.1)
        ]
      ]

      back : IsAdmitted v i reference now → Passes (run_checks fl w l v i reference now)
      back (a, g, s, n, h) =
          let r =
            (check_priced_iff i a (v.get_position i.symbol)
                (effective_price i (v.get_position i.symbol) reference)
                ("account_state_available" ∷ "account_state_fresh" ∷ [])).1
              (n, h) in
          (r.0, ground (arith, r.1), r.2)
