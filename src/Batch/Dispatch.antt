-- ===== src/Batch/Dispatch.antt =====
-- Which children may be dispatched.
use mathlib.Core.List.{Memᴰ}
use hype_edge.Common.{
  ℕ, ◌≡◌, ap, ◌∙◌, ◌⊎◌, inl, inr, true, none, some, List, [], ◌∷◌, arith, ==_iff, Option-cases,
}
use hype_edge.Common.Members.{keep-Memᴰ}
use hype_edge.Batch.{
  ChildOutcome, BatchChild, BatchExecutionCommand, same_outcome, child_by_id, dependency_met,
  dispatchable_children,
}

-- A child found by its identity is one of the children.
child_by_id-Memᴰ :
    (i : ℕ) (cs : List BatchChild) {d : BatchChild}
    → child_by_id i cs ≡ some d
    → Memᴰ d cs × (d.child_id ≡ i)
unfolding child_by_id
child_by_id-Memᴰ i [] h = cc
child_by_id-Memᴰ i (c ∷ cs) {d} h = elim (Option-cases (child_by_id i cs)) [
  | inl e ↦ (Memᴰ.head (ground arith), ground (arith, ==_iff c.child_id i))
  | inr (x, e) ↦ let (m, q) = child_by_id-Memᴰ i cs (e ∙ ap some (ground arith)) in (Memᴰ.tail m, q)
]

abbrev pub IsReady : List BatchChild → BatchChild → Type 0
IsReady cs c =
    (c.depends_on ≡ none)
    ⊎ ((dep : ℕ) × (d : BatchChild) × (c.depends_on ≡ some dep)
        × Memᴰ d cs
        × (d.child_id ≡ dep)
        × (d.outcome ≡ ChildOutcome.succeeded))

dependency_met-IsReady :
    (cs : List BatchChild) (c : BatchChild) → dependency_met cs c ≡ true → IsReady cs c
unfolding dependency_met
dependency_met-IsReady cs c h = elim (Option-cases c.depends_on) [
  | inl e ↦ inl e
  | inr (dep, e) ↦ elim (Option-cases (child_by_id dep cs)) [
    | inl f ↦ absurd (ground arith)
    | inr (d, f) ↦ let (m, q) = child_by_id-Memᴰ dep cs f in inr (dep, d, e, m, q, ground arith)
  ]
]

-- A child that is offered for dispatch is one of the command's children, is pending, and either
-- depends on nothing or depends on a child of the same command that has succeeded.
pub dispatchable_sound :
    (b : BatchExecutionCommand) {c : BatchChild}
    → Memᴰ c (dispatchable_children b)
    → Memᴰ c b.children × (c.outcome ≡ ChildOutcome.pending) × IsReady b.children c
unfolding dispatchable_children
dispatchable_sound b {c} m =
    let (inner, met) = keep-Memᴰ (dependency_met b.children) _ m in
    let (mem, waits) =
      keep-Memᴰ (λ (x : BatchChild). same_outcome x.outcome ChildOutcome.pending) b.children
        inner in
    (mem, ground arith, dependency_met-IsReady b.children c met)
