-- ===== src/RiskChecker/Counters.antt =====
-- The checker always answers, and counts its answers, crates/trading/src/risk/checker.rs.
use Prim.Native.String.{String}
use hype_edge.Common.{
  ℕ, ◌+◌, ◌%◌, ◌^◌, ◌<◌, ◌≡◌, ◌≢◌, refl, Bool, true, false, Option, none, some, List, [], ◌∷◌, ◌++◌,
  arith, if◌then◌else◌, Bool-cases, Option-cases, inl, inr, length,
}
use hype_edge.Common.Int.{ℤ, pos, leb_ℤ}
use hype_edge.Decimal.{Decimal}
use hype_edge.Decimal.WideInteger.{Wide}
use hype_edge.Safety.{OrderIntent}
use hype_edge.Tracker.{AccountState, Position}
use hype_edge.RiskChecker.{
  Floats, RiskCheckResult, AccountView, RiskLimits, RiskChecker, notional_of, fail, check_spot,
  perp_leveraged, check_perp, check_priced, check_account, run_checks, check, settle_check,
  count_result, effective_price,
}
use hype_edge.RiskChecker.Admission.{div_some, drawdown_some}

module _ (fl : Floats) (w : Wide) (l : RiskLimits fl) where
  check_spot_total :
      (i : OrderIntent) (a : AccountState) (price : Decimal) (c : List String)
      → check_spot fl w l i a price c ≢ none
  unfolding check_spot
  check_spot_total i a price c h = ground (arith, (drawdown_some fl w l a).1)

  perp_leveraged_total :
      (a : AccountState) (notional : Decimal) (c : List String) (d : fl.Float)
      → perp_leveraged fl w l a notional c d ≢ none
  unfolding perp_leveraged
  perp_leveraged_total a notional c d h = elim (Bool-cases (leb_ℤ a.equity.raw (pos 0))) [
    | inl e ↦ ground arith
    | inr e ↦ ground (arith, (div_some w notional a.equity (ground arith)).1)
  ]

  check_perp_total :
      (i : OrderIntent) (a : AccountState) (p : Option Position) (price : Decimal) (c : List String)
      → check_perp fl w l i a p price c ≢ none
  unfolding check_perp
  check_perp_total i a p price c h =
      let d = drawdown_some fl w l a in
      perp_leveraged_total a (notional_of fl w l i p price) (c ++ "max_drawdown" ∷ []) d.0
        (ground (arith, d.1))

  run_checks_total :
      (v : AccountView) (i : OrderIntent) (reference : Option Decimal) (now : ℤ)
      → run_checks fl w l v i reference now ≢ none
  unfolding run_checks check_account check_priced
  run_checks_total v i reference now h = elim (Option-cases v.get_account_state) [
    | inl g ↦ ground arith
    | inr (a, g) ↦ ground (
      arith,
      check_spot_total i a (effective_price i (v.get_position i.symbol) reference)
          ("account_state_available" ∷ "account_state_fresh" ∷ []),
      check_perp_total i a (v.get_position i.symbol)
          (effective_price i (v.get_position i.symbol) reference)
          ("account_state_available" ∷ "account_state_fresh" ∷ []),
    )
  ]

settles :
    (c : RiskChecker) (late : Bool) (run : Option RiskCheckResult)
    → run ≢ none
    → (r : RiskCheckResult) × (settle_check c late run ≡ some (count_result c r))
      × (late ≡ true → r.passed ≡ false)
unfolding settle_check
settles c late none h = absurd (h refl)
settles c true (some r) h = (fail "risk_check_timeout" [], refl, λ e. refl)
settles c false (some r) h = (r, refl, λ e. cc)

-- What one check is asked: the account, the order, the price, the time, and whether it is late.
pub record Request : Type 0 where
  pub view : AccountView
  pub intent : OrderIntent
  pub reference : Option Decimal
  pub now : ℤ
  pub timed_out : Bool

abbrev pub refused : List RiskCheckResult → ℕ
refused [] = 0
refused (r ∷ rs) = (if r.passed then 0 else 1) + refused rs

counts_one :
    (c : RiskChecker) (r : RiskCheckResult)
    → c.check_count < 2 ^ 64
    → c.reject_count < 2 ^ 64
    → ((count_result c r).0.check_count < 2 ^ 64)
      × ((count_result c r).0.reject_count < 2 ^ 64)
      × ((count_result c r).0.check_count ≡ (c.check_count + 1) % 2 ^ 64)
      × ((count_result c r).0.reject_count ≡ (c.reject_count + refused (r ∷ [])) % 2 ^ 64)
      × ((count_result c r).1 ≡ r)
unfolding count_result
counts_one c r h k = elim (Bool-cases r.passed) [
  | inl e ↦ (ground arith, ground arith, ground arith, ground arith, refl)
  | inr e ↦ (ground arith, ground arith, ground arith, ground arith, refl)
]

module _ (fl : Floats) (w : Wide) (l : RiskLimits fl) where
  -- The requests one after the other, with their answers.
  unfoldable pub serve : RiskChecker → List Request → Option (RiskChecker × List RiskCheckResult)
  serve c [] = some (c, [])
  serve c (q ∷ qs) = elim (check fl w l c q.view q.intent q.reference q.now q.timed_out) [
    | none ↦ none
    | some (c', r) ↦ elim (serve c' qs) [ none ↦ none | some (c'', rs) ↦ some (c'', r ∷ rs) ]
  ]

  check_counts :
      (c : RiskChecker) (q : Request)
      → (r : RiskCheckResult) × (check fl w l c q.view q.intent q.reference q.now q.timed_out
          ≡ some (count_result c r))
        × (q.timed_out ≡ true → r.passed ≡ false)
  unfolding check
  check_counts c q =
      settles c q.timed_out (run_checks fl w l q.view q.intent q.reference q.now)
        (run_checks_total fl w l q.view q.intent q.reference q.now)

  -- For every list of requests, late or not, the checker answers each one and never panics; the
  -- counter of checks grows by their number and the counter of rejections by the number of
  -- answers that refuse, both modulo 2^64.
  pub serve_counts :
      (c : RiskChecker) (qs : List Request)
      → c.check_count < 2 ^ 64
      → c.reject_count < 2 ^ 64
      → (c' : RiskChecker) × (rs : List RiskCheckResult) × (serve c qs ≡ some (c', rs))
        × (length rs ≡ length qs)
        × (c'.check_count ≡ (c.check_count + length qs) % 2 ^ 64)
        × (c'.reject_count ≡ (c.reject_count + refused rs) % 2 ^ 64)
  unfolding serve
  serve_counts c [] h k = (c, [], refl, refl, ground arith, ground arith)
  serve_counts c (q ∷ qs) h k =
      let one = check_counts c q in
      let counted = counts one.0 in
      let rest = serve_counts (count_result c one.0).0 qs counted.0 counted.1 in
      (
        rest.0,
        one.0 ∷ rest.1,
        ground (arith, one.1, rest.2, counted.4),
        omega (arith, rest.3),
        ground (arith, counted.2, rest.4),
        ground (arith, counted.3, rest.5),
      )
    where
      counts :
          (r : RiskCheckResult)
          → ((count_result c r).0.check_count < 2 ^ 64)
            × ((count_result c r).0.reject_count < 2 ^ 64)
            × ((count_result c r).0.check_count ≡ (c.check_count + 1) % 2 ^ 64)
            × ((count_result c r).0.reject_count ≡ (c.reject_count + refused (r ∷ [])) % 2 ^ 64)
            × ((count_result c r).1 ≡ r)
      counts r = counts_one c r h k
