-- ===== src/Mailbox/Tests.antt =====
-- Runs of a mailbox of capacity 2 over numbers of which the even ones are lossy, and the mailbox's
-- theorems at concrete states.
use hype_edge.Common.{ℕ, ◌%◌, ◌≤◌, ◌≡◌, refl, Bool, false, List, [], ◌∷◌, arith, ◌==◌, length}
use hype_edge.Mailbox.{Mailbox, put, put_lossy, try_recv, try_recv_forced, close}
use hype_edge.Mailbox.Bounds.{run-IsBounded}
use hype_edge.Mailbox.Delivery.{IsAccounted, run-IsAccounted}
use hype_edge.Mailbox.Steps.{Step, Trace, offer, force, receive, shut, step, run}

abbrev even : ℕ → Bool
even n = n % 2 == 0

abbrev start : Trace ℕ
start = record {
  box = record { items = []; capacity = 2; dropped = 0; closed = false };
  accepted = [];
  received = [];
}

abbrev full : Mailbox ℕ
full = record { items = 1 ∷ 2 ∷ []; capacity = 2; dropped = 0; closed = false }

abbrev busy : List (Step ℕ)
busy =
    offer 1
    ∷ offer 2
    ∷ offer 4
    ∷ force 3
    ∷ receive
    ∷ offer 3
    ∷ offer 6
    ∷ receive
    ∷ receive
    ∷ shut
    ∷ offer 5
    ∷ []

busy_receives : (run even start busy).received ≡ 1 ∷ 3 ∷ 6 ∷ []
unfolding run step put put_lossy try_recv try_recv_forced close
busy_receives = refl

run-IsBounded_example : length (run even start busy).box.items ≤ (run even start busy).box.capacity
run-IsBounded_example = (run-IsBounded even start busy (omega arith)).0

run-IsAccounted_example : IsAccounted even (run even start busy)
run-IsAccounted_example = run-IsAccounted even start busy refl
