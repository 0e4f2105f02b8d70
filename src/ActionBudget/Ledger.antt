-- ===== src/ActionBudget/Ledger.antt =====
-- The ledger of debits of crates/trading/src/risk/action_budget.rs: an attempt counts once.
use hype_edge.Common.{
  ℕ, ◌≡◌, refl, ◌∙◌, ap₂, Bool, true, false, ◌&&◌, Option, none, some, List, [], ◌∷◌, arith, ◌==◌,
  ==_refl, any, if◌then◌else◌, Option-cases, inl, inr, ◌⊎◌,
}
use hype_edge.Common.Int.{ℤ, ◌+ℤ◌, eq_ℤ-refl}
use hype_edge.Common.Result.{ok}
use hype_edge.ActionBudget.{
  BudgetAction, place, cancel, modify, close, NetworkAttemptDebit, ActionBudgetController, find,
  same_actions, same_option, same_debit, debit_network_attempt, total,
}

abbrev pub has_id : ℕ → List NetworkAttemptDebit → Bool
has_id i ds = any (λ d. d.attempt_id == i) ds

-- No two debits share an identity.
abbrev pub IsLedger : List NetworkAttemptDebit → Type 0
IsLedger [] = Unit
IsLedger (d ∷ ds) = (has_id d.attempt_id ds ≡ false) × IsLedger ds

pub find-has_id : (i : ℕ) (ds : List NetworkAttemptDebit) → find i ds ≡ none → has_id i ds ≡ false
unfolding find
find-has_id i [] h = refl
find-has_id i (d ∷ ds) h = ground (arith, find-has_id i ds)

pub has_id-find : (i : ℕ) (ds : List NetworkAttemptDebit) → has_id i ds ≡ false → find i ds ≡ none
unfolding find
has_id-find i [] h = refl
has_id-find i (d ∷ ds) h = ground (arith, has_id-find i ds)

same_actions_refl : (xs : List BudgetAction) → same_actions xs xs ≡ true
unfolding same_actions
same_actions_refl [] = refl
same_actions_refl (place ∷ xs) = same_actions_refl xs
same_actions_refl (cancel ∷ xs) = same_actions_refl xs
same_actions_refl (modify ∷ xs) = same_actions_refl xs
same_actions_refl (close ∷ xs) = same_actions_refl xs

same_option_refl : (o : Option ℕ) → same_option o o ≡ true
same_option_refl none = refl
same_option_refl (some a) = ==_refl a

pub same_debit_refl : (d : NetworkAttemptDebit) → same_debit d d ≡ true
unfolding same_debit
same_debit_refl d = simp (
  ==_refl d.attempt_id,
  same_actions_refl d.child_actions,
  eq_ℤ-refl d.ip_weight,
  eq_ℤ-refl d.occurred_at,
  same_option_refl d.strategy_id,
  same_option_refl d.symbol,
)

-- A debit with a fresh identity is entered; one whose identity is entered changes nothing.
pub debit_cases :
    (c c' : ActionBudgetController) (d : NetworkAttemptDebit) (fresh : Bool)
    → debit_network_attempt c d ≡ ok (c', fresh)
    → ((fresh ≡ true)
        × (has_id d.attempt_id c.attempts ≡ false)
        × (c' ≡ record c { attempts = d ∷ c.attempts }))
      ⊎ ((fresh ≡ false) × (c' ≡ c))
unfolding debit_network_attempt
debit_cases c c' d fresh h = elim (Option-cases (find d.attempt_id c.attempts)) [
  | inl e ↦ ground (arith, find-has_id d.attempt_id c.attempts e)
  | inr (x, e) ↦ ground arith
]

pub debit-IsLedger :
    (c c' : ActionBudgetController) (d : NetworkAttemptDebit) (fresh : Bool)
    → IsLedger c.attempts
    → debit_network_attempt c d ≡ ok (c', fresh)
    → IsLedger c'.attempts
debit-IsLedger c c' d fresh hc h = elim (debit_cases c c' d fresh h) [
  | inl (p, q, e) ↦ rw e (q, hc)
  | inr (p, e) ↦ rw e hc
]

find-head :
    (d : NetworkAttemptDebit) (ds : List NetworkAttemptDebit) → find d.attempt_id (d ∷ ds) ≡ some d
unfolding find
find-head d ds = ground (arith, ==_refl d.attempt_id)

entered :
    (c : ActionBudgetController) (d x : NetworkAttemptDebit)
    → find d.attempt_id c.attempts ≡ some x
    → same_debit x d ≡ true
    → debit_network_attempt c d ≡ ok (c, false)
unfolding debit_network_attempt
entered c d x h k = ground arith

again :
    (c c' : ActionBudgetController) (d : NetworkAttemptDebit) (fresh : Bool)
    → fresh ≡ false
    → c' ≡ c
    → debit_network_attempt c d ≡ ok (c', fresh)
    → debit_network_attempt c d ≡ ok (c, false)
again c c' d fresh p e h = h ∙ ap₂ (λ (x : ActionBudgetController) (y : Bool). ok (x, y)) e p

-- After a debit of an attempt that succeeds, whether it was entered or known, debiting the same
-- attempt again succeeds, reports that it is not new and changes nothing: an attempt is never
-- charged twice.
pub debit_twice :
    (c c' : ActionBudgetController) (d : NetworkAttemptDebit) (fresh : Bool)
    → debit_network_attempt c d ≡ ok (c', fresh)
    → (debit_network_attempt c' d ≡ ok (c', false))
debit_twice c c' d fresh h = elim (debit_cases c c' d fresh h) [
  | inl (p, q, e) ↦ rw e (
      entered (record c { attempts = d ∷ c.attempts }) d d (find-head d c.attempts)
        (same_debit_refl d))
  | inr (p, e) ↦ rw e (again c c' d fresh p e h)
]

-- The sum of a class of costs grows by the cost of a debit that is entered, and by nothing else.
pub total-debit :
    (p : NetworkAttemptDebit → Bool) (cost : NetworkAttemptDebit → ℤ)
    (c c' : ActionBudgetController) (d : NetworkAttemptDebit) (fresh : Bool)
    → debit_network_attempt c d ≡ ok (c', fresh)
    → total p cost c'.attempts
      ≡ (if fresh && p d then cost d +ℤ total p cost c.attempts else total p cost c.attempts)
unfolding total
total-debit p cost c c' d fresh h = elim (debit_cases c c' d fresh h) [
  | inl (q, n, e) ↦ rw (e, q) refl
  | inr (q, e) ↦ rw (e, q) refl
]
