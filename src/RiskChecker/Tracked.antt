-- ===== src/RiskChecker/Tracked.antt =====
-- The checker over the tracked account, crates/trading/src/risk/checker.rs and
-- crates/trading/src/account/tracker.rs.
use Prim.Native.String.{String}
use mathlib.Core.Path.{subst}
use hype_edge.Common.{
  ℕ, ◌≡◌, refl, sym, ap, ◌∙◌, All, true, false, Option, none, some, List, [], ◌∷◌, arith,
  Option-cases, inl, inr,
}
use hype_edge.Common.Int.{ℤ, pos, ◌≤ℤ◌, ◌<ℤ◌}
use hype_edge.Common.Maps.{lookup}
use hype_edge.Decimal.{Decimal, add, mul, abs, negate}
use hype_edge.Decimal.WideInteger.{Wide, InI128}
use hype_edge.Safety.{OrderIntent}
use hype_edge.Tracker.{
  AccountState, Position, TrackerState, Fill, update_fill, record_fill_accounting,
}
use hype_edge.Tracker.Positions.{run_fills, size_of, abstract_run, run_fills-refines, size_in}
use hype_edge.RiskChecker.{
  Floats, RiskCheckResult, RiskLimits, tracker_view, run_checks, max_notional, notional_of,
  resulting_size, held_size, for_side, effective_price,
}
use hype_edge.RiskChecker.Admission.{run_checks_iff, IsAdmitted}

update_fill-account :
    (w : Wide) (now : ℤ) (t t' : TrackerState) (f : Fill)
    → update_fill w now t f ≡ some t'
    → t'.account_state ≡ t.account_state
unfolding update_fill record_fill_accounting
update_fill-account w now t t' f h = ground arith

run_fills-account :
    (w : Wide) (t t' : TrackerState) (fs : List (ℤ × Fill))
    → run_fills w t fs ≡ some t'
    → t'.account_state ≡ t.account_state
unfolding run_fills
run_fills-account w t t' [] h = ground arith
run_fills-account w t t' (e ∷ fs) h = elim (Option-cases (update_fill w e.0 t e.1)) [
  | inl k ↦ ground arith
  | inr (u, k) ↦ run_fills-account w u t' fs (ground arith) ∙ update_fill-account w e.0 t u e.1 k
]

held-eq-size : (p : Option Position) → held_size p ≡ size_in p
held-eq-size none = refl
held-eq-size (some p) = refl

module _ (fl : Floats) (w : Wide) (l : RiskLimits fl) (name : String → ℕ) where
  -- From any state of the tracker, every list of fills with sizes in the i128 range is processed
  -- without a panic, and leaves the account state as it was. If the checker, with a market price
  -- and over the tracker after the fills, then passes a perpetual order, the account state is
  -- known, the price is positive, and the notional, at this price, of the running sum of the
  -- fills of the symbol with the order on top is at most the position cap of the account.
  pub admitted_within_cap :
      (t : TrackerState) (fs : List (ℤ × Fill)) (i : OrderIntent) (price : Decimal) (now : ℤ)
      → All (λ e. InI128 e.1.size.raw) fs
      → i.is_spot ≡ false
      → (t' : TrackerState) × (run_fills w t fs ≡ some t')
        × (t'.account_state ≡ t.account_state)
        × ((r : RiskCheckResult)
            → run_checks fl w l (tracker_view name t') i (some price) now ≡ some r
            → r.passed ≡ true
            → (a : AccountState) × (t.account_state ≡ some a)
              × (pos 0 <ℤ price.raw)
              × ((mul w
                    (abs (
                      add
                        (abstract_run (size_of t) fs (name i.symbol))
                        (for_side i.side i.size (negate i.size))))
                    price).raw
                  ≤ℤ (max_notional fl w l a).raw))
  unfolding tracker_view notional_of resulting_size effective_price
  admitted_within_cap t fs i price now h s =
      let ran = run_fills-refines w t fs h in
      (
        ran.0,
        ran.1,
        run_fills-account w t ran.0 fs ran.1,
        λ r e k.
            bound ran.0 ran.1 ran.2
              ((run_checks_iff fl w l (tracker_view name ran.0) i (some price) now).0 (r, e, k)),
      )
    where
      bound :
          (t' : TrackerState)
          → run_fills w t fs ≡ some t'
          → size_of t' ≡ abstract_run (size_of t) fs
          → IsAdmitted fl w l (tracker_view name t') i (some price) now
          → (a : AccountState) × (t.account_state ≡ some a)
            × (pos 0 <ℤ price.raw)
            × ((mul w
                  (abs (
                    add
                      (abstract_run (size_of t) fs (name i.symbol))
                      (for_side i.side i.size (negate i.size))))
                  price).raw
                ≤ℤ (max_notional fl w l a).raw)
      bound t' ran sizes (a, g, fresh, n, inl (x, y)) = cc
      bound t' ran sizes (a, g, fresh, n, inr (x, admitted)) =
          let size : held_size (lookup (name i.symbol) t'.positions)
              ≡ abstract_run (size_of t) fs (name i.symbol) =
            held-eq-size (lookup (name i.symbol) t'.positions)
            ∙ ap (λ (g : ℕ → Decimal). g (name i.symbol)) sizes in
          (
            a,
            sym (run_fills-account w t t' fs ran) ∙ g,
            n,
            subst
                (λ (d : Decimal).
                  (mul w (abs (add d (for_side i.side i.size (negate i.size)))) price).raw
                  ≤ℤ (max_notional fl w l a).raw)
                size admitted.2,
          )
