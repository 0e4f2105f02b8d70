-- ===== src/Recovery.antt =====
-- Possible-live orders that await the exchange's word: crates/trading/src/execution/recovery.rs. A
-- slot and an identity are those of Quotes, and times are integers of one unit, as is the limit.
pub mod Blocking
pub mod Age
mod Tests
use Prim.Native.String.{String}
use hype_edge.Common.{
  ℕ, Bool, true, false, not, ◌&&◌, Option, none, some, List, [], ◌∷◌, ◌++◌, ltb, ◌==◌,
  if◌then◌else◌, any, keep, map,
}
use hype_edge.Common.Result.{Result, ok, err}
use hype_edge.Common.Int.{ℤ, ◌-ℤ◌, pos_part, ltb_ℤ, leb_ℤ}
use hype_edge.Order.{
  OrderStatus, filled, cancelled, rejected, expired, submit_unknown as order_submit_unknown,
  cancel_unknown as order_cancel_unknown,
}
use hype_edge.Quotes.{QuoteSlotKey, QuoteRiskOwner, same_side}

pub data RecoveryReason : Type 0 where
  submit_unknown cancel_unknown modify_unknown late_old_revision unattributed_live : RecoveryReason

unfoldable pub reason_as_str : RecoveryReason → String
reason_as_str submit_unknown = "submit_unknown"
reason_as_str cancel_unknown = "cancel_unknown"
reason_as_str modify_unknown = "modify_unknown"
reason_as_str late_old_revision = "late_old_revision"
reason_as_str unattributed_live = "unattributed_live"

pub data RecoveryStatus : Type 0 where
  required cancel_pending resolved_terminal : RecoveryStatus

unfoldable pub status_as_str : RecoveryStatus → String
status_as_str required = "required"
status_as_str cancel_pending = "cancel_pending"
status_as_str resolved_terminal = "resolved_terminal"

pub record RecoveryOwner : Type 0 where
  pub slot : QuoteSlotKey
  pub owner : QuoteRiskOwner
  pub reason : RecoveryReason
  pub discovered_at : ℤ
  pub status : RecoveryStatus

pub data RecoveryError : Type 0 where
  terminal_owner duplicate_cloids sla_not_positive : RecoveryError
  owner_not_found : ℕ → RecoveryError

unfoldable pub new_owner : QuoteSlotKey → QuoteRiskOwner → RecoveryReason → ℤ → RecoveryOwner
new_owner slot owner reason discovered_at = record {
  slot = slot;
  owner = owner;
  reason = reason;
  discovered_at = discovered_at;
  status = required;
}

abbrev pub is_resolved : RecoveryStatus → Bool
is_resolved resolved_terminal = true
is_resolved required = false
is_resolved cancel_pending = false

unfoldable pub blocks_placement : RecoveryOwner → Bool
blocks_placement r = not (is_resolved r.status)

unfoldable pub mark_cancel_pending : RecoveryOwner → Result RecoveryError RecoveryOwner
mark_cancel_pending r =
    if is_resolved r.status then err terminal_owner else ok (record r { status = cancel_pending })

-- The statuses by which the exchange says that an order is over.
abbrev pub is_over : OrderStatus → Bool
is_over filled = true
is_over cancelled = true
is_over rejected = true
is_over expired = true
is_over _ = false

unfoldable pub reconcile_owner : OrderStatus → RecoveryOwner → RecoveryOwner
reconcile_owner authoritative_status r =
    if is_over authoritative_status then record r { status = resolved_terminal } else r

pub record RecoveryRegistry : Type 0 where
  pub owners : List RecoveryOwner

abbrev pub has_cloid : ℕ → RecoveryOwner → Bool
has_cloid cloid r = r.owner.cloid == cloid

-- The loop over the owners with the set of identities seen.
unfoldable pub has_duplicate : List ℕ → List RecoveryOwner → Bool
has_duplicate seen [] = false
has_duplicate seen (r ∷ owners) =
    if any (λ c. c == r.owner.cloid) seen then true else has_duplicate (r.owner.cloid ∷ seen) owners

unfoldable pub new : List RecoveryOwner → Result RecoveryError RecoveryRegistry
new owners =
    if has_duplicate [] owners then err duplicate_cloids else ok (record { owners = owners })

unfoldable pub empty : RecoveryRegistry
empty = record { owners = [] }

unfoldable pub register : RecoveryRegistry → RecoveryOwner → RecoveryRegistry
register g r =
    if any (has_cloid r.owner.cloid) g.owners then g else record { owners = g.owners ++ r ∷ [] }

abbrev pub same_slot : QuoteSlotKey → QuoteSlotKey → Bool
same_slot a b =
    (a.strategy_id == b.strategy_id)
    && (a.symbol == b.symbol)
    && same_side a.side b.side
    && (a.level == b.level)

unfoldable pub placement_blocked : RecoveryRegistry → QuoteSlotKey → Bool
placement_blocked g slot = any (λ r. same_slot r.slot slot && blocks_placement r) g.owners

unfoldable pub unresolved : RecoveryRegistry → List RecoveryOwner
unresolved g = keep blocks_placement g.owners

-- The least time of discovery.
unfoldable pub earliest : List RecoveryOwner → Option ℤ
earliest [] = none
earliest (r ∷ owners) = elim (earliest owners) [
  | some t ↦ some (if leb_ℤ r.discovered_at t then r.discovered_at else t)
  | none ↦ some r.discovered_at
]

-- A negative age is none at all.
abbrev pub age_at : ℤ → ℤ → ℕ
age_at now discovered_at = pos_part (now -ℤ discovered_at)

unfoldable pub oldest_unresolved_age : RecoveryRegistry → ℤ → Option ℕ
oldest_unresolved_age g now = elim (earliest (unresolved g)) [
  | some discovered_at ↦ some (age_at now discovered_at)
  | none ↦ none
]

abbrev pub exceeds : ℕ → Option ℕ → Bool
exceeds sla none = false
exceeds sla (some age) = ltb sla age

unfoldable pub sla_exceeded : RecoveryRegistry → ℤ → ℕ → Result RecoveryError Bool
sla_exceeded g now sla =
    if sla == 0 then err sla_not_positive else ok (exceeds sla (oldest_unresolved_age g now))

-- One owner of the map in `reconcile`.
unfoldable pub reconcile_one : ℕ → OrderStatus → RecoveryOwner → RecoveryOwner
reconcile_one cloid status r = if has_cloid cloid r then reconcile_owner status r else r

unfoldable pub reconcile :
    RecoveryRegistry → ℕ → OrderStatus → Result RecoveryError RecoveryRegistry
reconcile g cloid status =
    if any (has_cloid cloid) g.owners
    then ok (record { owners = map (reconcile_one cloid status) g.owners })
    else err (owner_not_found cloid)

abbrev pub is_submit_unknown : OrderStatus → Bool
is_submit_unknown order_submit_unknown = true
is_submit_unknown _ = false

abbrev pub is_cancel_unknown : OrderStatus → Bool
is_cancel_unknown order_cancel_unknown = true
is_cancel_unknown _ = false

unfoldable pub classify_orphan : QuoteRiskOwner → ℤ → Option RecoveryReason
classify_orphan owner active_plan_revision =
    if is_submit_unknown owner.status
    then some submit_unknown
    else if is_cancel_unknown owner.status
    then some cancel_unknown
    else if ltb_ℤ owner.plan_revision active_plan_revision
    then some late_old_revision
    else none
