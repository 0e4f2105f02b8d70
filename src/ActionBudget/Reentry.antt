-- ===== src/ActionBudget/Reentry.antt =====
-- The debits of a recovery, entered in turn; crates/trading/src/risk/action_budget.rs.
use hype_edge.Common.{
  ℕ, ◌≡◌, refl, ◌∙◌, Bool, true, false, List, [], ◌∷◌, arith, all, keep, Bool-cases, inl, inr,
}
use hype_edge.Common.Int.{ℤ, ◌+ℤ◌, leb_ℤ, int_laws}
use hype_edge.Common.Result.{ok}
use hype_edge.ActionBudget.{
  NetworkAttemptDebit, ActionBudgetController, total, debit_network_attempt,
}
use hype_edge.ActionBudget.Recovery.{restore_attempts}
use hype_edge.ActionBudget.Ledger.{IsLedger, has_id, has_id-find}

-- The list with the debits of another entered in turn.
abbrev pub enter : List NetworkAttemptDebit → List NetworkAttemptDebit → List NetworkAttemptDebit
enter [] acc = acc
enter (d ∷ ds) acc = enter ds (d ∷ acc)

abbrev pub IsFresh : List NetworkAttemptDebit → List NetworkAttemptDebit → Type 0
IsFresh [] acc = Unit
IsFresh (d ∷ ds) acc = (has_id d.attempt_id acc ≡ false) × IsFresh ds acc

IsFresh-enter :
    (d : NetworkAttemptDebit) (ds acc : List NetworkAttemptDebit)
    → has_id d.attempt_id ds ≡ false
    → IsFresh ds acc
    → IsFresh ds (d ∷ acc)
IsFresh-enter d [] acc h f = tt
IsFresh-enter d (x ∷ ds) acc h f = (ground arith, IsFresh-enter d ds acc (ground arith) f.1)

pub IsFresh-none : (ds : List NetworkAttemptDebit) → IsFresh ds []
IsFresh-none [] = tt
IsFresh-none (d ∷ ds) = (refl, IsFresh-none ds)

debit_fresh :
    (c : ActionBudgetController) (d : NetworkAttemptDebit)
    → has_id d.attempt_id c.attempts ≡ false
    → debit_network_attempt c d ≡ ok (record c { attempts = d ∷ c.attempts }, true)
unfolding debit_network_attempt
debit_fresh c d h = ground (arith, has_id-find d.attempt_id c.attempts h)

restore_step :
    (at : ℤ) (d : NetworkAttemptDebit) (ds : List NetworkAttemptDebit)
    (c c' : ActionBudgetController) (b : Bool)
    → leb_ℤ at d.occurred_at ≡ true
    → debit_network_attempt c d ≡ ok (c', b)
    → restore_attempts at (d ∷ ds) c ≡ restore_attempts at ds c'
unfolding restore_attempts
restore_step at d ds c c' b h e = ground arith

restore_nil : (at : ℤ) (c : ActionBudgetController) → restore_attempts at [] c ≡ (c, true)
unfolding restore_attempts
restore_nil at c = refl

-- Recent debits with identities of their own are all entered.
pub restore_attempts-enter :
    (at : ℤ) (ds : List NetworkAttemptDebit) (c : ActionBudgetController)
    → all (λ d. leb_ℤ at d.occurred_at) ds ≡ true
    → IsLedger ds
    → IsFresh ds c.attempts
    → restore_attempts at ds c ≡ (record c { attempts = enter ds c.attempts }, true)
restore_attempts-enter at [] c a l f = restore_nil at c
restore_attempts-enter at (d ∷ ds) c a l f =
    restore_step at d ds c (record c { attempts = d ∷ c.attempts }) true (ground arith)
      (debit_fresh c d f.0)
    ∙ restore_attempts-enter at ds (record c { attempts = d ∷ c.attempts }) (ground arith) l.1
        (IsFresh-enter d ds c.attempts l.0 f.1)

pub total-enter :
    (p : NetworkAttemptDebit → Bool) (cost : NetworkAttemptDebit → ℤ)
    (ds acc : List NetworkAttemptDebit)
    → total p cost (enter ds acc) ≡ total p cost ds +ℤ total p cost acc
unfolding total
total-enter p cost [] acc = grind int_laws
total-enter p cost (d ∷ ds) acc = total-enter p cost ds (d ∷ acc) ∙ grind int_laws

-- A class of debits that are all kept has its sum kept.
pub total-keep :
    (p q : NetworkAttemptDebit → Bool) (cost : NetworkAttemptDebit → ℤ)
    (h : (d : NetworkAttemptDebit) → p d ≡ true → q d ≡ true) (ds : List NetworkAttemptDebit)
    → total p cost (keep q ds) ≡ total p cost ds
unfolding total
total-keep p q cost h [] = refl
total-keep p q cost h (d ∷ ds) = ground (arith, h d, total-keep p q cost h ds)

has_id-keep :
    (q : NetworkAttemptDebit → Bool) (i : ℕ) (ds : List NetworkAttemptDebit)
    → has_id i ds ≡ false
    → has_id i (keep q ds) ≡ false
has_id-keep q i [] h = refl
has_id-keep q i (d ∷ ds) h = ground (arith, has_id-keep q i ds (ground arith))

pub IsLedger-keep :
    (q : NetworkAttemptDebit → Bool) (ds : List NetworkAttemptDebit)
    → IsLedger ds
    → IsLedger (keep q ds)
IsLedger-keep q [] l = tt
IsLedger-keep q (d ∷ ds) l = elim (Bool-cases (q d)) [
  | inl e ↦ rw e (has_id-keep q d.attempt_id ds l.0, IsLedger-keep q ds l.1)
  | inr e ↦ rw e (IsLedger-keep q ds l.1)
]

pub all-keep :
    (q : NetworkAttemptDebit → Bool) (ds : List NetworkAttemptDebit) → all q (keep q ds) ≡ true
all-keep q [] = refl
all-keep q (d ∷ ds) = ground (arith, all-keep q ds)
