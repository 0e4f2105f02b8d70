-- ===== src/Recovery/Tests.antt =====
-- Runs of crates/trading/src/execution/recovery.rs, and its theorems at concrete histories.
use hype_edge.Common.{ℕ, ◌≡◌, refl, true, false, some, [], ◌∷◌, ltb, any, arith, ◌&&◌}
use hype_edge.Common.Result.{ok, err}
use hype_edge.Common.Int.{ℤ, pos, ◌-ℤ◌}
use hype_edge.Decimal.{decimal_one}
use hype_edge.Order.{Side, OrderStatus, acknowledged, cancelled}
use hype_edge.Quotes.{QuoteSlotKey, QuoteRiskOwner}
use hype_edge.Recovery.{
  RecoveryOwner, RecoveryRegistry, new, empty, register, reconcile, reconcile_one, reconcile_owner,
  blocks_placement, placement_blocked, classify_orphan, late_old_revision, RecoveryReason,
  owner_not_found, sla_exceeded, oldest_unresolved_age, unresolved, earliest, age_at, has_duplicate,
  required,
}
use hype_edge.Recovery.Blocking.{registering, reconciling, run, apply, run_blocks, new-run}
use hype_edge.Recovery.Age.{sla_exceeded-any}

abbrev slot : QuoteSlotKey
slot = record { strategy_id = 1; symbol = 2; side = Side.buy; level = 1 }

abbrev owner_of : ℕ → OrderStatus → ℤ → QuoteRiskOwner
owner_of cloid status revision = record {
  order_id = some cloid;
  cloid = cloid;
  price = decimal_one;
  remaining_size = decimal_one;
  status = status;
  plan_revision = revision;
  live_since = pos 0;
  exchange_order_id_known = true;
}

abbrev lost : ℕ → ℕ → RecoveryOwner
lost cloid at_time = record {
  slot = slot;
  owner = owner_of cloid OrderStatus.submit_unknown (pos 1);
  reason = RecoveryReason.submit_unknown;
  discovered_at = pos at_time;
  status = required;
}

abbrev two_lost : RecoveryRegistry
two_lost = record { owners = lost 1 100 ∷ lost 2 50 ∷ [] }

late_revision : classify_orphan (owner_of 1 acknowledged (pos 1)) (pos 2) ≡ some late_old_revision
unfolding classify_orphan
late_revision = refl

unknown_cloid : reconcile two_lost 7 cancelled ≡ err (owner_not_found 7)
unfolding reconcile
unknown_cloid = refl

oldest : oldest_unresolved_age two_lost (pos 120) ≡ some 70
unfolding oldest_unresolved_age unresolved earliest blocks_placement ◌-ℤ◌
oldest = refl

settled :
    placement_blocked (run (reconciling 1 cancelled ∷ []) (register empty (lost 1 100))) slot
    ≡ false
unfolding placement_blocked run apply reconcile reconcile_one reconcile_owner register empty
    blocks_placement
settled = refl

run_blocks_example :
    placement_blocked
      (run
        (reconciling 2 cancelled ∷ reconciling 1 acknowledged ∷ registering (lost 3 10) ∷ [])
        (register two_lost (lost 4 60)))
      slot
    ≡ true
unfolding blocks_placement
run_blocks_example =
    run_blocks two_lost (lost 4 60)
      (reconciling 2 cancelled ∷ reconciling 1 acknowledged ∷ registering (lost 3 10) ∷ []) refl
      refl refl

new-run_example :
    new (run (registering (lost 2 10) ∷ registering (lost 3 10) ∷ []) two_lost).owners
    ≡ ok (run (registering (lost 2 10) ∷ registering (lost 3 10) ∷ []) two_lost)
unfolding new has_duplicate
new-run_example =
    new-run (lost 1 100 ∷ lost 2 50 ∷ []) two_lost
      (registering (lost 2 10) ∷ registering (lost 3 10) ∷ []) refl

sla_exceeded-any_example :
    sla_exceeded two_lost (pos 120) 60
    ≡ ok
        (any (λ r. blocks_placement r && ltb 60 (age_at (pos 120) r.discovered_at)) two_lost.owners)
sla_exceeded-any_example = sla_exceeded-any two_lost (pos 120) 60 (omega arith)
