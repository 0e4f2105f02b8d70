-- ===== src/Batch.antt =====
-- Durable batches: the children and the commands of crates/trading/src/execution/batch.rs. A UUID is a number, a time a number of nanoseconds.
pub mod Child
pub mod Costs
pub mod Outcome
pub mod Dispatch
pub mod Command
mod Tests
use Prim.Native.String.{String}
use hype_edge.Common.{
  ℕ, zero, suc, ◌+◌, Bool, true, false, not, ◌&&◌, ◌||◌, Option, none, some, List, [], ◌∷◌, ◌++◌,
  map, ltb, leb, ◌==◌, any, all, keep, length, if◌then◌else◌,
}
use hype_edge.Common.Int.{ℤ, pos, ltb_ℤ, leb_ℤ, eq_ℤ}
use hype_edge.DispatchGuard.{ChildActionType}
use hype_edge.Common.Result.{Result, ok, err, ◌>>=◌, ◌>>◌, guard}

pub data ChildOutcome : Type 0 where
  pending dispatching succeeded rejected unknown superseded expired blocked : ChildOutcome

-- Equality of outcomes, by their positions in the enumeration.
abbrev pub outcome_index : ChildOutcome → ℕ
outcome_index pending = 0
outcome_index dispatching = 1
outcome_index succeeded = 2
outcome_index rejected = 3
outcome_index unknown = 4
outcome_index superseded = 5
outcome_index expired = 6
outcome_index blocked = 7

abbrev pub same_outcome : ChildOutcome → ChildOutcome → Bool
same_outcome a b = outcome_index a == outcome_index b

unfoldable pub is_terminal : ChildOutcome → Bool
is_terminal succeeded = true
is_terminal rejected = true
is_terminal superseded = true
is_terminal expired = true
is_terminal blocked = true
is_terminal _ = false

pub data BatchOutcome : Type 0 where
  pending dispatching succeeded partial unknown completed : BatchOutcome

pub record NetworkAttempt : Type 0 where
  pub attempt_id : ℕ
  pub request_hash : String
  pub sent_at : ℤ
  pub responded_at : Option ℤ

pub record BatchChild : Type 0 where
  pub child_id : ℕ
  pub ordinal : ℕ
  pub action : ChildActionType
  pub plan_revision : ℤ
  pub outcome : ChildOutcome
  pub attempts : List NetworkAttempt
  pub depends_on : Option ℕ
  pub resolution : Option String

pub data BatchError : Type 0 where
  resend_terminal_or_unknown resolve_without_result conflicting_result : BatchError
  negative_revision duplicate_child_ids ordinals_not_contiguous foreign_dependency : BatchError
  unknown_child : ℕ → BatchError

unfoldable pub new_child : ℕ → ℕ → ChildActionType → ℤ → Option ℕ → BatchChild
new_child child_id ordinal action plan_revision depends_on = record {
  child_id = child_id;
  ordinal = ordinal;
  action = action;
  plan_revision = plan_revision;
  outcome = pending;
  attempts = [];
  depends_on = depends_on;
  resolution = none;
}

-- The size of the set of the numbers in a list.
unfoldable pub distinct_count : List ℕ → ℕ
distinct_count [] = 0
distinct_count (x ∷ xs) =
    if any (λ y. x == y) xs then distinct_count xs else suc (distinct_count xs)

unfoldable pub child_cost : BatchChild → ℕ
unfolding distinct_count
child_cost c = distinct_count (map (λ a. a.attempt_id) c.attempts)

unfoldable pub record_attempt : BatchChild → NetworkAttempt → Result BatchError BatchChild
unfolding is_terminal
record_attempt c a =
    if any (λ x. x.attempt_id == a.attempt_id) c.attempts
    then ok c
    else if is_terminal c.outcome || same_outcome c.outcome unknown
    then err resend_terminal_or_unknown
    else ok (record c { outcome = dispatching; attempts = c.attempts ++ a ∷ [] })

unfoldable pub resolve : BatchChild → ChildOutcome → Option String → Result BatchError BatchChild
unfolding is_terminal
resolve c outcome resolution =
    if same_outcome outcome pending || same_outcome outcome dispatching
    then err resolve_without_result
    else if is_terminal c.outcome
    then (if same_outcome c.outcome outcome then ok c else err conflicting_result)
    else ok (record c { outcome = outcome; resolution = resolution })

pub record BatchExecutionCommand : Type 0 where
  pub command_id : ℕ
  pub plan_revision : ℤ
  pub children : List BatchChild

abbrev pub child_ids : List BatchChild → List ℕ
child_ids cs = map (λ c. c.child_id) cs

-- `sort_unstable` on numbers.
unfoldable pub sorted_insert : ℕ → List ℕ → List ℕ
sorted_insert x [] = x ∷ []
sorted_insert x (y ∷ ys) = if leb x y then x ∷ y ∷ ys else y ∷ sorted_insert x ys

unfoldable pub sort : List ℕ → List ℕ
unfolding sorted_insert
sort [] = []
sort (x ∷ xs) = sorted_insert x (sort xs)

-- `start..start + n`.
unfoldable pub count_from : ℕ → ℕ → List ℕ
count_from start zero = []
count_from start (suc n) = start ∷ count_from (suc start) n

unfoldable pub same_list : List ℕ → List ℕ → Bool
same_list [] [] = true
same_list (x ∷ xs) (y ∷ ys) = x == y && same_list xs ys
same_list _ _ = false

-- Whether each dependency names a child of the same command.
unfoldable pub dependencies_inside : List ℕ → List BatchChild → Bool
dependencies_inside ids =
    all (λ c. elim c.depends_on [ none ↦ true | some dep ↦ any (λ i. i == dep) ids ])

unfoldable pub new_command : ℕ → ℤ → List BatchChild → Result BatchError BatchExecutionCommand
new_command command_id plan_revision children = do
  guard (not (ltb_ℤ plan_revision (pos 0))) negative_revision
  guard (distinct_count (child_ids children) == length children) duplicate_child_ids
  guard (same_list (sort (map (λ c. c.ordinal) children)) (count_from 0 (length children)))
      ordinals_not_contiguous
  guard (dependencies_inside (child_ids children) children) foreign_dependency
  ok (record { command_id = command_id; plan_revision = plan_revision; children = children })

unfoldable pub command_cost : List BatchChild → ℕ
unfolding child_cost
command_cost [] = 0
command_cost (c ∷ cs) = child_cost c + command_cost cs

abbrev pub has_outcome : ChildOutcome → List BatchChild → Bool
has_outcome o = any (λ c. same_outcome c.outcome o)

unfoldable pub outcome : BatchExecutionCommand → BatchOutcome
unfolding is_terminal
outcome b = elim b.children [
  | [] ↦ succeeded
  | _ ∷ _ ↦
      if all (λ c. is_terminal c.outcome) b.children
      then (if all (λ c. same_outcome c.outcome ChildOutcome.succeeded) b.children
          then succeeded
          else if has_outcome ChildOutcome.succeeded b.children
          then partial
          else completed)
      else if has_outcome ChildOutcome.unknown b.children
      then unknown
      else if has_outcome ChildOutcome.dispatching b.children
      then dispatching
      else pending
]

unfoldable pub replace_in : BatchChild → List BatchChild → List BatchChild
replace_in updated [] = []
replace_in updated (c ∷ cs) =
    (if c.child_id == updated.child_id then updated else c) ∷ replace_in updated cs

unfoldable pub replace_child :
    BatchExecutionCommand → BatchChild → Result BatchError BatchExecutionCommand
replace_child b updated =
    if any (λ c. c.child_id == updated.child_id) b.children
    then ok (record b { children = replace_in updated b.children })
    else err (unknown_child updated.child_id)

-- The map from identities to children, where a later child takes the place of an earlier one.
unfoldable pub child_by_id : ℕ → List BatchChild → Option BatchChild
child_by_id i [] = none
child_by_id i (c ∷ cs) = elim (child_by_id i cs) [
  | some later ↦ some later
  | none ↦ if c.child_id == i then some c else none
]

unfoldable pub dependency_met : List BatchChild → BatchChild → Bool
unfolding child_by_id
dependency_met children c = elim c.depends_on [
  | none ↦ true
  | some dep ↦ elim (child_by_id dep children) [
    | none ↦ false
    | some d ↦ same_outcome d.outcome ChildOutcome.succeeded
  ]
]

unfoldable pub dispatchable_children : BatchExecutionCommand → List BatchChild
unfolding dependency_met
dispatchable_children b =
    keep (dependency_met b.children)
      (keep (λ c. same_outcome c.outcome ChildOutcome.pending) b.children)
