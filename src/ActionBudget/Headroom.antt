-- ===== src/ActionBudget/Headroom.antt =====
-- The cancel headroom and what the ledgers leave, crates/trading/src/risk/action_budget.rs.
use hype_edge.Common.{◌≡◌, refl, Bool, Option, none, some, List, ◌∷◌, arith, inl, inr}
use hype_edge.Common.Int.{ℤ, pos, ◌-ℤ◌, ◌≤ℤ◌, ltb_ℤ, max_ℤ, min_ℤ, +ℤ_parts, -ℤ_parts}
use hype_edge.Common.Result.{ok}
use hype_edge.ActionBudget.{
  CancelHeadroomSnapshot, RemoteActionSnapshot, NetworkAttemptDebit, ActionBudgetController,
  project, advance_cancel_headroom, reconcile_remote, remote_used, address_left, cancel_left,
  shadow_cancels, in_window, debit_network_attempt, total, address_cost, cancel_cost,
  address_remaining, cancel_remaining, ip_remaining, shadow_address_debit, remote_remaining,
  headroom_remaining,
}
use hype_edge.ActionBudget.Ledger.{debit_cases}

-- What the headroom has used lies between nothing and its cap.
abbrev pub IsInCap : CancelHeadroomSnapshot → Type 0
IsInCap h = (pos 0 ≤ℤ h.used) × (h.used ≤ℤ h.cap)

pub project-IsInCap :
    (h : CancelHeadroomSnapshot) (delta at : ℤ) → pos 0 ≤ℤ h.cap → IsInCap (project h delta at)
unfolding project
project-IsInCap h delta at p = (
  ground (arith, -ℤ_parts h.cap (max_ℤ (pos 0) (min_ℤ (h.cap -ℤ h.used -ℤ delta) h.cap))),
  ground (arith, -ℤ_parts h.cap (max_ℤ (pos 0) (min_ℤ (h.cap -ℤ h.used -ℤ delta) h.cap))),
)

project-cap : (h : CancelHeadroomSnapshot) (delta at : ℤ) → (project h delta at).cap ≡ h.cap
unfolding project
project-cap h delta at = refl

max_sub_le : (x t t' : ℤ) → t ≤ℤ t' → max_ℤ (x -ℤ t') (pos 0) ≤ℤ max_ℤ (x -ℤ t) (pos 0)
max_sub_le x t t' h = ground (arith, -ℤ_parts x t, -ℤ_parts x t')

total_grows :
    (p : NetworkAttemptDebit → Bool) (cost : NetworkAttemptDebit → ℤ) (d : NetworkAttemptDebit)
    (ds : List NetworkAttemptDebit)
    → pos 0 ≤ℤ cost d
    → total p cost ds ≤ℤ total p cost (d ∷ ds)
unfolding total
total_grows p cost d ds h = ground (arith, +ℤ_parts (cost d) (total p cost ds))

address_le :
    (d : NetworkAttemptDebit) (ds : List NetworkAttemptDebit) (o : Option RemoteActionSnapshot)
    → address_left (d ∷ ds) o ≤ℤ address_left ds o
unfolding address_left shadow_address_debit address_cost
address_le d ds none = omega arith
address_le d ds (some s) =
    max_sub_le (remote_remaining s) (shadow_address_debit ds s.observed_at)
      (shadow_address_debit (d ∷ ds) s.observed_at)
      (total_grows (λ a. ltb_ℤ s.observed_at a.occurred_at) address_cost d ds (omega arith))

cancel_le :
    (d : NetworkAttemptDebit) (ds : List NetworkAttemptDebit) (o : Option CancelHeadroomSnapshot)
    → cancel_left (d ∷ ds) o ≤ℤ cancel_left ds o
unfolding cancel_left shadow_cancels cancel_cost
cancel_le d ds none = omega arith
cancel_le d ds (some s) =
    max_sub_le (headroom_remaining s) (shadow_cancels ds s.observed_at)
      (shadow_cancels (d ∷ ds) s.observed_at)
      (total_grows (λ a. ltb_ℤ s.observed_at a.occurred_at) cancel_cost d ds (omega arith))

entered_conserves :
    (c : ActionBudgetController) (d : NetworkAttemptDebit) (now : ℤ)
    → pos 0 ≤ℤ d.ip_weight
    → (address_remaining (record c { attempts = d ∷ c.attempts }) ≤ℤ address_remaining c)
      × (cancel_remaining (record c { attempts = d ∷ c.attempts }) ≤ℤ cancel_remaining c)
      × (ip_remaining (record c { attempts = d ∷ c.attempts }) now ≤ℤ ip_remaining c now)
unfolding address_remaining cancel_remaining ip_remaining
entered_conserves c d now w = (
  address_le d c.attempts c.remote_snapshot,
  cancel_le d c.attempts c.cancel_snapshot,
  max_sub_le c.ip_weight_limit_per_minute (total (in_window now) (λ a. a.ip_weight) c.attempts)
      (total (in_window now) (λ a. a.ip_weight) (d ∷ c.attempts))
      (total_grows (in_window now) (λ a. a.ip_weight) d c.attempts w),
)

-- Where a cancel headroom with a cap that is not negative is known, every remote snapshot that
-- is accepted leaves a headroom with the same cap of which between nothing and the cap is used,
-- also if the remote usage went back or the old headroom was out of these bounds.
pub reconcile_remote-IsInCap :
    (c c' : ActionBudgetController) (s : RemoteActionSnapshot) (h : CancelHeadroomSnapshot)
    → c.cancel_snapshot ≡ some h
    → pos 0 ≤ℤ h.cap
    → reconcile_remote c s ≡ ok c'
    → (h' : CancelHeadroomSnapshot) × (c'.cancel_snapshot ≡ some h') × (h'.cap ≡ h.cap) × IsInCap h'
unfolding reconcile_remote advance_cancel_headroom
reconcile_remote-IsInCap c c' s h e p r = (
  project h (s.used -ℤ remote_used c.remote_snapshot) s.observed_at,
  ground arith,
  project-cap h (s.used -ℤ remote_used c.remote_snapshot) s.observed_at,
  project-IsInCap h (s.used -ℤ remote_used c.remote_snapshot) s.observed_at p,
)

-- A debit with a request weight that is not negative raises neither the remaining address
-- actions, nor the remaining cancel headroom, nor the remaining request weight at any time.
pub debit_conserves :
    (c c' : ActionBudgetController) (d : NetworkAttemptDebit) (fresh : Bool) (now : ℤ)
    → pos 0 ≤ℤ d.ip_weight
    → debit_network_attempt c d ≡ ok (c', fresh)
    → (address_remaining c' ≤ℤ address_remaining c)
      × (cancel_remaining c' ≤ℤ cancel_remaining c)
      × (ip_remaining c' now ≤ℤ ip_remaining c now)
debit_conserves c c' d fresh now w h = elim (debit_cases c c' d fresh h) [
  | inl (q, n, e) ↦ rw e (entered_conserves c d now w)
  | inr (q, e) ↦ rw e (omega arith, omega arith, omega arith)
]
