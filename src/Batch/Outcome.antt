-- ===== src/Batch/Outcome.antt =====
-- The aggregate outcome of a batch.
use hype_edge.Common.{◌≡◌, refl, ◌↔◌, true, false, List, [], ◌∷◌, arith, All, all}
use hype_edge.Batch.{
  ChildOutcome, BatchChild, BatchOutcome, BatchExecutionCommand, is_terminal, same_outcome,
  has_outcome, outcome,
}

all-succeeded :
    (cs : List BatchChild)
    → all (λ (c : BatchChild). same_outcome c.outcome ChildOutcome.succeeded) cs ≡ true
    → All (λ (c : BatchChild). c.outcome ≡ ChildOutcome.succeeded) cs
all-succeeded [] h = tt
all-succeeded (c ∷ cs) h = (ground arith, all-succeeded cs (ground arith))

succeeded-all :
    (cs : List BatchChild)
    → All (λ (c : BatchChild). c.outcome ≡ ChildOutcome.succeeded) cs
    → (all (λ (c : BatchChild). same_outcome c.outcome ChildOutcome.succeeded) cs ≡ true)
      × (all (λ (c : BatchChild). is_terminal c.outcome) cs ≡ true)
unfolding is_terminal
succeeded-all [] h = (refl, refl)
succeeded-all (c ∷ cs) h = ground (arith, succeeded-all cs h.1)

-- No child that is terminal is unknown.
terminal-known :
    (cs : List BatchChild)
    → all (λ (c : BatchChild). is_terminal c.outcome) cs ≡ true
    → has_outcome ChildOutcome.unknown cs ≡ false
unfolding is_terminal
terminal-known [] h = refl
terminal-known (c ∷ cs) h = ground (arith, terminal-known cs)

-- A batch is reported as succeeded exactly when every child has succeeded.
pub outcome_succeeded_iff :
    (b : BatchExecutionCommand)
    → (outcome b ≡ BatchOutcome.succeeded)
      ↔ All (λ (c : BatchChild). c.outcome ≡ ChildOutcome.succeeded) b.children
outcome_succeeded_iff b = (sound b b.children refl, complete b b.children refl)
  where
    sound :
        (b : BatchExecutionCommand) (cs : List BatchChild)
        → b.children ≡ cs
        → outcome b ≡ BatchOutcome.succeeded
        → All (λ (c : BatchChild). c.outcome ≡ ChildOutcome.succeeded) b.children
    sound b [] e h = rw e tt
    sound b (c ∷ cs) e h = all-succeeded b.children (unfold outcome in ground arith)

    complete :
        (b : BatchExecutionCommand) (cs : List BatchChild)
        → b.children ≡ cs
        → All (λ (c : BatchChild). c.outcome ≡ ChildOutcome.succeeded) b.children
        → outcome b ≡ BatchOutcome.succeeded
    complete b [] e h = unfold outcome in ground arith
    complete b (c ∷ cs) e h = unfold outcome in ground (arith, succeeded-all b.children h)

-- The batch is reported as unknown exactly when the outcome of some child is unknown.
pub outcome_unknown_iff :
    (b : BatchExecutionCommand)
    → (outcome b ≡ BatchOutcome.unknown) ↔ (has_outcome ChildOutcome.unknown b.children ≡ true)
unfolding outcome
outcome_unknown_iff b = (λ h. ground arith, λ h. ground (arith, terminal-known b.children))
