-- ===== src/ActionBudget.antt =====
-- The ledgers of the action budget, crates/trading/src/risk/action_budget.rs: the address actions, the
-- cancel headroom and the requests that crossed the network. Identities and addresses are numbers,
-- of which only equality counts, and times are integers. The map of attempts is a list in which an
-- identity stands once, the latest first; the order of a map's values does not count, as they are
-- only summed.
pub mod Ledger
pub mod Mode
pub mod Permission
pub mod Headroom
pub mod Recovery
pub mod Reentry
pub mod RoundTrip
mod Tests
use hype_edge.Common.{
  ℕ, suc, Bool, true, false, not, ◌&&◌, ◌||◌, Option, none, some, List, [], ◌∷◌, ◌++◌, ◌+◌, ◌==◌,
  any, keep, length, if◌then◌else◌,
}
use hype_edge.Common.Int.{ℤ, pos, ◌+ℤ◌, ◌-ℤ◌, ltb_ℤ, leb_ℤ, eq_ℤ, max_ℤ, min_ℤ}
use hype_edge.Common.Result.{Result, ok, err}
use hype_edge.Decimal.{Decimal, is_negative}

pub data BudgetAction : Type 0 where
  place cancel modify close : BudgetAction

abbrev pub action_index : BudgetAction → ℕ
action_index place = 0
action_index cancel = 1
action_index modify = 2
action_index close = 3

abbrev pub same_action : BudgetAction → BudgetAction → Bool
same_action a b = action_index a == action_index b

pub record RemoteActionSnapshot : Type 0 where
  pub quota_owner_address : ℕ
  pub cap : ℤ
  pub used : ℤ
  pub observed_at : ℤ

pub record CancelHeadroomSnapshot : Type 0 where
  pub cap : ℤ
  pub used : ℤ
  pub observed_at : ℤ

pub record NetworkAttemptDebit : Type 0 where
  pub attempt_id : ℕ
  pub child_actions : List BudgetAction
  pub ip_weight : ℤ
  pub occurred_at : ℤ
  pub strategy_id : Option ℕ
  pub symbol : Option ℕ

pub record FillCredit : Type 0 where
  pub volume_usdc : Decimal
  pub occurred_at : ℤ

pub record BudgetAllocation : Type 0 where
  pub strategy_id : ℕ
  pub symbol : ℕ
  pub soft_limit : ℤ
  pub hard_limit : ℤ

pub record ActionBudgetController : Type 0 where
  pub quota_owner_address : ℕ
  pub cancel_retry_buffer : ℤ
  pub ip_weight_limit_per_minute : ℤ
  pub remote_snapshot : Option RemoteActionSnapshot
  pub cancel_snapshot : Option CancelHeadroomSnapshot
  pub attempts : List NetworkAttemptDebit
  pub fills : List FillCredit
  pub allocations : List BudgetAllocation
  pub possible_live_orders : ℤ
  pub forced_cancel_only : Bool
  pub restored_conservatively : Bool

pub data LedgerError : Type 0 where
  different_owner timestamp_regressed attempt_id_reused panic : LedgerError

unfoldable pub address_cost : NetworkAttemptDebit → ℤ
address_cost d = pos (length d.child_actions)

unfoldable pub cancel_cost : NetworkAttemptDebit → ℤ
cancel_cost d = pos (length (keep (λ a. same_action a cancel) d.child_actions))

-- The sum of the costs of the debits that pass a test.
unfoldable pub total :
    (NetworkAttemptDebit → Bool) → (NetworkAttemptDebit → ℤ) → List NetworkAttemptDebit → ℤ
total p cost [] = pos 0
total p cost (d ∷ ds) = if p d then cost d +ℤ total p cost ds else total p cost ds

unfoldable pub remote_remaining : RemoteActionSnapshot → ℤ
remote_remaining s = s.cap -ℤ s.used

unfoldable pub headroom_remaining : CancelHeadroomSnapshot → ℤ
headroom_remaining s = s.cap -ℤ s.used

-- For an address that has been found canonical; the settings that the ledgers read are fields.
unfoldable pub new : ℕ → ℤ → ℤ → ActionBudgetController
new owner buffer limit = record {
  quota_owner_address = owner;
  cancel_retry_buffer = buffer;
  ip_weight_limit_per_minute = limit;
  remote_snapshot = none;
  cancel_snapshot = none;
  attempts = [];
  fills = [];
  allocations = [];
  possible_live_orders = pos 0;
  forced_cancel_only = true;
  restored_conservatively = false;
}

abbrev pub allocates : ℕ → ℕ → BudgetAllocation → Bool
allocates s y a = (a.strategy_id == s) && (a.symbol == y)

unfoldable pub release_allocation : ActionBudgetController → ℕ → ℕ → ActionBudgetController
release_allocation c s y = record c {
  allocations = keep (λ a. not (allocates s y a)) c.allocations;
}

unfoldable pub set_allocation : ActionBudgetController → BudgetAllocation → ActionBudgetController
unfolding release_allocation
set_allocation c a =
    if ltb_ℤ a.soft_limit (pos 0) || ltb_ℤ a.hard_limit a.soft_limit
    then c
    else (let old = release_allocation c a.strategy_id a.symbol in
        record old { allocations = a ∷ old.allocations })

unfoldable pub update_possible_live_orders : ActionBudgetController → ℤ → ActionBudgetController
update_possible_live_orders c n =
    if ltb_ℤ n (pos 0) then c else record c { possible_live_orders = n }

-- The time of the fill is the one given to the code, or where none is given the present.
unfoldable pub record_fill : ActionBudgetController → Decimal → ℤ → ActionBudgetController
record_fill c volume at =
    if is_negative volume
    then c
    else record c { fills = c.fills ++ (record { volume_usdc = volume; occurred_at = at }) ∷ [] }

unfoldable pub reconcile_cancel_headroom :
    ActionBudgetController → CancelHeadroomSnapshot → ActionBudgetController
reconcile_cancel_headroom c s = record c { cancel_snapshot = some s }

unfoldable pub remote_used : Option RemoteActionSnapshot → ℤ
remote_used (some s) = s.used
remote_used none = pos 0

-- The headroom after the remote usage moved by `delta`, kept in [0, cap] for a cap from 0.
unfoldable pub project : CancelHeadroomSnapshot → ℤ → ℤ → CancelHeadroomSnapshot
project s delta at =
    let remaining = max_ℤ (pos 0) (min_ℤ (s.cap -ℤ s.used -ℤ delta) s.cap) in
    record { cap = s.cap; used = s.cap -ℤ remaining; observed_at = at }

-- `none` if the clamp panics, on a negative cap.
unfoldable pub advance_cancel_headroom :
    ActionBudgetController → RemoteActionSnapshot → Option ActionBudgetController
unfolding project remote_used
advance_cancel_headroom c s = elim c.cancel_snapshot [
  | none ↦ some c
  | some h ↦
      if ltb_ℤ h.cap (pos 0)
      then none
      else some (record c {
        cancel_snapshot = some (project h (s.used -ℤ remote_used c.remote_snapshot) s.observed_at);
      })
]

unfoldable pub observed_before : RemoteActionSnapshot → Option RemoteActionSnapshot → Bool
observed_before s none = false
observed_before s (some previous) = ltb_ℤ s.observed_at previous.observed_at

unfoldable pub reconcile_remote :
    ActionBudgetController → RemoteActionSnapshot → Result LedgerError ActionBudgetController
unfolding advance_cancel_headroom observed_before
reconcile_remote c s =
    if not (s.quota_owner_address == c.quota_owner_address)
    then err different_owner
    else if observed_before s c.remote_snapshot
    then err timestamp_regressed
    else (elim (advance_cancel_headroom c s) [
      | none ↦ err panic
      | some c' ↦ ok (record c' { remote_snapshot = some s; forced_cancel_only = false })
    ])

abbrev pub same_option : Option ℕ → Option ℕ → Bool
same_option none none = true
same_option (some a) (some b) = a == b
same_option _ _ = false

unfoldable pub same_actions : List BudgetAction → List BudgetAction → Bool
same_actions [] [] = true
same_actions (a ∷ xs) (b ∷ ys) = same_action a b && same_actions xs ys
same_actions _ _ = false

-- Equality of debits, as derived.
unfoldable pub same_debit : NetworkAttemptDebit → NetworkAttemptDebit → Bool
unfolding same_actions
same_debit a b =
    (a.attempt_id == b.attempt_id)
    && same_actions a.child_actions b.child_actions
    && eq_ℤ a.ip_weight b.ip_weight
    && eq_ℤ a.occurred_at b.occurred_at
    && same_option a.strategy_id b.strategy_id
    && same_option a.symbol b.symbol

unfoldable pub find : ℕ → List NetworkAttemptDebit → Option NetworkAttemptDebit
find i [] = none
find i (d ∷ ds) = if d.attempt_id == i then some d else find i ds

unfoldable pub debit_network_attempt :
    ActionBudgetController
    → NetworkAttemptDebit
    → Result LedgerError (ActionBudgetController × Bool)
unfolding find same_debit
debit_network_attempt c d = elim (find d.attempt_id c.attempts) [
  | some existing ↦ if same_debit existing d then ok (c, false) else err attempt_id_reused
  | none ↦ ok (record c { attempts = d ∷ c.attempts }, true)
]

unfoldable pub shadow_address_debit : List NetworkAttemptDebit → ℤ → ℤ
unfolding total address_cost
shadow_address_debit ds observed_at = total (λ a. ltb_ℤ observed_at a.occurred_at) address_cost ds

unfoldable pub address_left : List NetworkAttemptDebit → Option RemoteActionSnapshot → ℤ
unfolding shadow_address_debit remote_remaining
address_left ds none = pos 0
address_left ds (some s) =
    max_ℤ (remote_remaining s -ℤ shadow_address_debit ds s.observed_at) (pos 0)

unfoldable pub address_remaining : ActionBudgetController → ℤ
unfolding address_left
address_remaining c = address_left c.attempts c.remote_snapshot

unfoldable pub shadow_cancels : List NetworkAttemptDebit → ℤ → ℤ
unfolding total cancel_cost
shadow_cancels ds observed_at = total (λ a. ltb_ℤ observed_at a.occurred_at) cancel_cost ds

unfoldable pub cancel_left : List NetworkAttemptDebit → Option CancelHeadroomSnapshot → ℤ
unfolding shadow_cancels headroom_remaining
cancel_left ds none = pos 0
cancel_left ds (some s) = max_ℤ (headroom_remaining s -ℤ shadow_cancels ds s.observed_at) (pos 0)

unfoldable pub cancel_remaining : ActionBudgetController → ℤ
unfolding cancel_left
cancel_remaining c = cancel_left c.attempts c.cancel_snapshot

-- One minute in nanoseconds.
abbrev pub minute : ℤ
minute = pos 60_000_000_000

abbrev pub in_window : ℤ → NetworkAttemptDebit → Bool
in_window now a = ltb_ℤ (now -ℤ minute) a.occurred_at && leb_ℤ a.occurred_at now

unfoldable pub ip_remaining : ActionBudgetController → ℤ → ℤ
unfolding total
ip_remaining c now =
    max_ℤ (c.ip_weight_limit_per_minute -ℤ total (in_window now) (λ a. a.ip_weight) c.attempts)
      (pos 0)

unfoldable pub allocation_consumed : ActionBudgetController → ℕ → ℕ → ℤ
unfolding total address_cost
allocation_consumed c s y =
    total (λ a. same_option a.strategy_id (some s) && same_option a.symbol (some y)) address_cost
      c.attempts

unfoldable pub required_cancel_reserve : ActionBudgetController → ℤ
required_cancel_reserve c = c.possible_live_orders +ℤ c.cancel_retry_buffer
