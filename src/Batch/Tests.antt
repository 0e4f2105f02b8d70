-- ===== src/Batch/Tests.antt =====
-- A batch of a cancel and a placement that waits for it, and the theorems on batches at it.
use mathlib.Core.List.{Memᴰ}
use hype_edge.Common.{◌≡◌, refl, none, some, [], ◌∷◌, arith}
use hype_edge.Common.Int.{pos}
use hype_edge.Common.Result.{ok}
use hype_edge.DispatchGuard.{place, cancel}
use hype_edge.Batch.{
  BatchChild, BatchExecutionCommand, ChildOutcome, NetworkAttempt, is_terminal, new_child, resolve,
  new_command, dispatchable_children, distinct_count, sort, sorted_insert, count_from, same_list,
  dependencies_inside, dependency_met, child_by_id,
}
use hype_edge.Batch.Child.{ChildStep, ChildReach, IsSettled, ChildReach-IsSettled}
use hype_edge.Batch.Dispatch.{IsReady, dispatchable_sound}
use hype_edge.Batch.Command.{Replaces}

abbrev first : BatchChild
unfolding new_child
first = new_child 7 0 cancel (pos 3) none

abbrev second : BatchChild
unfolding new_child
second = new_child 8 1 place (pos 3) (some 7)

abbrev batch : BatchExecutionCommand
batch = record { command_id = 1; plan_revision = pos 3; children = first ∷ second ∷ [] }

abbrev sent : NetworkAttempt
sent = record { attempt_id = 40; request_hash = "ab"; sent_at = pos 5; responded_at = none }

abbrev done : BatchChild
done = record first { outcome = ChildOutcome.succeeded }

abbrev after : BatchExecutionCommand
after = record batch { children = done ∷ second ∷ [] }

only_first : dispatchable_children batch ≡ first ∷ []
unfolding dispatchable_children dependency_met child_by_id new_child
only_first = refl

then_second : dispatchable_children after ≡ second ∷ []
unfolding dispatchable_children dependency_met child_by_id new_child
then_second = refl

batch_accepted : new_command 1 (pos 3) (first ∷ second ∷ []) ≡ ok batch
unfolding new_command new_child distinct_count sort sorted_insert count_from same_list
    dependencies_inside
batch_accepted = refl

done-Replaces : Replaces done batch.children
unfolding new_child
done-Replaces c (Memᴰ.head e) q = ground arith
done-Replaces c (Memᴰ.tail (Memᴰ.head e)) q = ground arith
done-Replaces c (Memᴰ.tail (Memᴰ.tail m)) q = elim m [ ]

dispatchable_sound_example : IsReady after.children second
dispatchable_sound_example =
    (dispatchable_sound after {c = second} (rw then_second (Memᴰ.head refl))).2

abbrev tried : BatchChild
tried = record first { outcome = ChildOutcome.dispatching; attempts = sent ∷ [] }

ChildReach-IsSettled_example : IsSettled (record tried { outcome = ChildOutcome.rejected })
unfolding resolve is_terminal new_child
ChildReach-IsSettled_example =
    (ChildReach-IsSettled {c = record tried { outcome = ChildOutcome.unknown }}
      {c' = record tried { outcome = ChildOutcome.rejected }}
      (ChildReach.next {d = record tried { outcome = ChildOutcome.unknown }} ChildReach.here
        (ChildStep.result ChildOutcome.rejected none refl))
      refl).0
