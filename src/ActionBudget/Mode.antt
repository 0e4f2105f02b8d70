-- ===== src/ActionBudget/Mode.antt =====
-- The modes of the action budget, crates/domain/src/enums.rs.

pub data ActionBudgetMode : Type 0 where
  normal conserve critical cancel_only exhausted : ActionBudgetMode
