-- ===== src/Canary/Severity.antt =====
-- The live gate is fail-closed: worse facts never loosen it, crates/trading/src/risk/canary.rs.
use Prim.Native.String.{String}
use hype_edge.Common.{
  ℕ, ◌≡◌, ◌≤◌, ◌⊎◌, refl, Bool, true, false, not, ◌||◌, Option, none, some, List, [], ◌∷◌, arith,
  ◌/◌, ◌^◌, ◌-◌, if◌then◌else◌, inl,
}
use hype_edge.Common.Int.{ℤ, pos, negsuc, ◌≤ℤ◌, ◌<ℤ◌, ltb_ℤ, ◌-ℤ◌, neg_parts}
use hype_edge.Decimal.{Decimal, negate}
use hype_edge.Canary.{
  CanaryDirective, running, paused, cancel_only, halted, CanaryRiskEnvelope, CanaryObservation,
  evaluate_live, halted_checks, cancel_only_checks, paused_checks, fired, is_empty, decide, older,
  as_i64, wrap_i64, elapsed,
}

abbrev pub severity : CanaryDirective → ℕ
severity running = 0
severity paused = 1
severity cancel_only = 2
severity halted = 3

-- A health flag that is lost or as before.
abbrev pub NoHealthier : Bool → Bool → Type 0
NoHealthier b b' = (b ≡ true) ⊎ (b' ≡ false)

abbrev pub NoYounger : Option ℕ → Option ℕ → Type 0
NoYounger none age = Unit
NoYounger (some a) (some a') = a ≤ a'
NoYounger (some a) none = ⊥

abbrev pub InI64 : ℤ → Type 0
InI64 a = (negsuc (2 ^ 63 - 1) ≤ℤ a) × (a <ℤ pos (2 ^ 63))

wrap_i64-InI64 : (a : ℤ) → InI64 a → wrap_i64 a ≡ a
wrap_i64-InI64 (pos n) h = ground arith
wrap_i64-InI64 (negsuc n) h = ground arith

elapsed-InI64 :
    (o : CanaryObservation)
    → InI64 (o.observed_at -ℤ o.started_at)
    → elapsed o ≡ o.observed_at -ℤ o.started_at
unfolding elapsed
elapsed-InI64 o h = wrap_i64-InI64 (o.observed_at -ℤ o.started_at) h

-- The second observation is in no respect better than the first.
pub record IsWorse (o o' : CanaryObservation) : Type 0 where
  pub time : o.observed_at -ℤ o.started_at ≤ℤ o'.observed_at -ℤ o'.started_at
  pub equity : o.deployed_equity.raw ≤ℤ o'.deployed_equity.raw
  pub notional : o.live_quote_notional.raw ≤ℤ o'.live_quote_notional.raw
  pub daily_loss : o'.daily_pnl.raw ≤ℤ o.daily_pnl.raw
  pub cumulative_loss : o'.cumulative_pnl.raw ≤ℤ o.cumulative_pnl.raw
  pub daily : o.daily_actions ≤ℤ o'.daily_actions
  pub total : o.total_actions ≤ℤ o'.total_actions
  pub credits : o'.action_credits ≤ℤ o.action_credits
  pub headroom : o'.cancel_headroom ≤ℤ o.cancel_headroom
  pub flattened : o.forced_flatten_count ≤ℤ o'.forced_flatten_count
  pub flatten_cost : o.forced_flatten_cost.raw ≤ℤ o'.forced_flatten_cost.raw
  pub unknown_age : NoYounger o.oldest_unknown_age o'.oldest_unknown_age
  pub volume : o.filled_volume.raw ≤ℤ o'.filled_volume.raw
  pub reconciliation : NoHealthier o.reconciliation_healthy o'.reconciliation_healthy
  pub market_data : NoHealthier o.market_data_healthy o'.market_data_healthy
  pub account : NoHealthier o.account_healthy o'.account_healthy

-- The checks of one list that fire also fire in the other.
abbrev Implied : List (Bool × String) → List (Bool × String) → Type 0
Implied [] cs' = Unit
Implied (c ∷ cs) [] = ⊥
Implied (c ∷ cs) (c' ∷ cs') = ((c.0 ≡ false) ⊎ (c'.0 ≡ true)) × Implied cs cs'

fired_mono :
    (cs cs' : List (Bool × String))
    → Implied cs cs'
    → is_empty (fired cs') ≡ true
    → is_empty (fired cs) ≡ true
fired_mono [] cs' h e = refl
fired_mono (c ∷ cs) [] h e = absurd h
fired_mono (c ∷ cs) (c' ∷ cs') h e = ground (arith, fired_mono cs cs' h.1)

decide-severity :
    (hs cs ps : List String)
    → severity (decide hs cs ps).directive
      ≡ (if is_empty hs then (if is_empty cs then (if is_empty ps then 0 else 1) else 2) else 3)
decide-severity [] [] [] = refl
decide-severity [] [] (p ∷ ps) = refl
decide-severity [] (c ∷ cs) ps = refl
decide-severity (h ∷ hs) cs ps = refl

negate_mono : (a b : Decimal) → b.raw ≤ℤ a.raw → (negate a).raw ≤ℤ (negate b).raw
unfolding negate
negate_mono a b h = ground (arith, neg_parts a.raw, neg_parts b.raw)

abbrev rank : Bool → Bool → Bool → ℕ
rank h c p = if h then (if c then (if p then 0 else 1) else 2) else 3

three_mono :
    (h c p h' c' p' : Bool)
    → (h' ≡ true → h ≡ true)
    → (c' ≡ true → c ≡ true)
    → (p' ≡ true → p ≡ true)
    → rank h c p ≤ rank h' c' p'
three_mono h c p false c' p' x y z = ground arith
three_mono h c p true false p' x y z = ground (arith, x refl)
three_mono h c p true true false x y z = ground (arith, x refl, y refl)
three_mono h c p true true true x y z = ground (arith, x refl, y refl, z refl)

loss_mono :
    (a b limit : Decimal)
    → b.raw ≤ℤ a.raw
    → (ltb_ℤ limit.raw (negate a).raw ≡ false) ⊎ (ltb_ℤ limit.raw (negate b).raw ≡ true)
loss_mono a b limit h = ground (arith, negate_mono a b h)

above_mono : (a b limit : ℤ) → a ≤ℤ b → (ltb_ℤ limit a ≡ false) ⊎ (ltb_ℤ limit b ≡ true)
above_mono a b limit h = ground arith

below_mono : (a b limit : ℤ) → b ≤ℤ a → (ltb_ℤ a limit ≡ false) ⊎ (ltb_ℤ b limit ≡ true)
below_mono a b limit h = ground arith

older_mono :
    (a b : Option ℕ) (sla : ℕ) → NoYounger a b → (older a sla ≡ false) ⊎ (older b sla ≡ true)
older_mono none b sla h = inl refl
older_mono (some a) (some b) sla h = ground arith
older_mono (some a) none sla h = absurd h

ill_mono : (a b : Bool) → NoHealthier a b → (not a ≡ false) ⊎ (not b ≡ true)
ill_mono a b h = ground arith

data_mono :
    (a b a' b' : Bool)
    → NoHealthier a a'
    → NoHealthier b b'
    → ((not a || not b) ≡ false) ⊎ ((not a' || not b') ≡ true)
data_mono a b a' b' h k = ground arith

time_mono :
    (o o' : CanaryObservation) (limit : ℤ)
    → InI64 (o.observed_at -ℤ o.started_at)
    → InI64 (o'.observed_at -ℤ o'.started_at)
    → o.observed_at -ℤ o.started_at ≤ℤ o'.observed_at -ℤ o'.started_at
    → (ltb_ℤ limit (elapsed o) ≡ false) ⊎ (ltb_ℤ limit (elapsed o') ≡ true)
time_mono o o' limit r r' h =
    rw (elapsed-InI64 o r, elapsed-InI64 o' r')
      (above_mono (o.observed_at -ℤ o.started_at) (o'.observed_at -ℤ o'.started_at) limit h)

module _ (e : CanaryRiskEnvelope) (o o' : CanaryObservation)
    (r : InI64 (o.observed_at -ℤ o.started_at)) (r' : InI64 (o'.observed_at -ℤ o'.started_at))
    (x : IsWorse o o') where
  halted_mono : Implied (halted_checks e o) (halted_checks e o')
  unfolding halted_checks
  halted_mono = (
    ill_mono o.reconciliation_healthy o'.reconciliation_healthy x.reconciliation,
    (
      above_mono o.deployed_equity.raw o'.deployed_equity.raw e.max_deployed_equity.raw x.equity,
      (
        loss_mono o.cumulative_pnl o'.cumulative_pnl e.max_cumulative_loss x.cumulative_loss,
        (
          above_mono o.total_actions o'.total_actions e.max_total_actions x.total,
          (
            time_mono o o' (as_i64 (e.max_duration / 1_000_000)) r r' x.time,
            (
              above_mono o.filled_volume.raw o'.filled_volume.raw e.max_filled_volume.raw x.volume,
              (
                above_mono o.forced_flatten_count o'.forced_flatten_count e.max_forced_flatten_count
                    x.flattened,
                (
                  above_mono o.forced_flatten_cost.raw o'.forced_flatten_cost.raw
                      e.max_forced_flatten_cost.raw x.flatten_cost,
                  tt,
                ),
              ),
            ),
          ),
        ),
      ),
    ),
  )

  cancel_only_mono : Implied (cancel_only_checks e o) (cancel_only_checks e o')
  unfolding cancel_only_checks
  cancel_only_mono = (
    older_mono o.oldest_unknown_age o'.oldest_unknown_age e.unknown_sla x.unknown_age,
    (
      below_mono o.action_credits o'.action_credits e.min_action_credits x.credits,
      (
        below_mono o.cancel_headroom o'.cancel_headroom e.min_cancel_headroom x.headroom,
        (
          data_mono o.market_data_healthy o.account_healthy o'.market_data_healthy
              o'.account_healthy x.market_data x.account,
          tt,
        ),
      ),
    ),
  )

  paused_mono : Implied (paused_checks e o) (paused_checks e o')
  unfolding paused_checks
  paused_mono = (
    above_mono o.live_quote_notional.raw o'.live_quote_notional.raw e.max_quote_notional.raw
        x.notional,
    (
      loss_mono o.daily_pnl o'.daily_pnl e.max_daily_loss x.daily_loss,
      (above_mono o.daily_actions o'.daily_actions e.max_daily_actions x.daily, tt),
    ),
  )

  -- If the times that two observations have run for are both in the i64 range, then the one that
  -- is worse or equal in every respect never gets a milder directive, in the order running,
  -- paused, cancel-only, halted.
  pub evaluate_live_mono :
      severity (evaluate_live e o).directive ≤ severity (evaluate_live e o').directive
  unfolding evaluate_live
  evaluate_live_mono =
      rw
        (
          decide-severity (fired (halted_checks e o)) (fired (cancel_only_checks e o))
              (fired (paused_checks e o)),
          decide-severity (fired (halted_checks e o')) (fired (cancel_only_checks e o'))
              (fired (paused_checks e o')),
        )
        (three_mono (is_empty (fired (halted_checks e o)))
          (is_empty (fired (cancel_only_checks e o))) (is_empty (fired (paused_checks e o)))
          (is_empty (fired (halted_checks e o'))) (is_empty (fired (cancel_only_checks e o')))
          (is_empty (fired (paused_checks e o')))
          (fired_mono (halted_checks e o) (halted_checks e o') halted_mono)
          (fired_mono (cancel_only_checks e o) (cancel_only_checks e o') cancel_only_mono)
          (fired_mono (paused_checks e o) (paused_checks e o') paused_mono))
