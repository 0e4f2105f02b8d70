-- ===== src/Mailbox.antt =====
-- One subscriber's bounded queue: `BoundedMailbox` of crates/infra/src/event_bus.rs. Each operation
-- runs under the mailbox's lock and is one atomic step; where the code waits on a `Notify`, the step
-- says so and the caller tries again. The classifier of lossy items is the section's parameter.
pub mod Steps
pub mod Eviction
pub mod Bounds
pub mod Delivery
mod Tests
use hype_edge.Common.{
  ℕ, zero, suc, ◌+◌, ◌≡◌, Bool, true, false, Option, none, some, List, [], ◌∷◌, ◌++◌, ltb, leb,
  length, if◌then◌else◌,
}

pub record Mailbox {ℓ} (A : Type ℓ) : Type ℓ where
  pub items : List A
  pub capacity : ℕ
  pub dropped : ℕ
  pub closed : Bool

-- What one attempt of `put` comes to: it returns true, it returns false, or it waits for space.
pub data Put : Type 0 where
  stored refused waiting : Put

module _ {ℓ} {A : Type ℓ} where
  unfoldable pub new : ℕ → Mailbox A
  new capacity = record { items = []; capacity = capacity; dropped = 0; closed = false }

  -- The index of the first item that passes the test.
  unfoldable pub position : (A → Bool) → List A → Option ℕ
  position p [] = none
  position p (x ∷ xs) =
      if p x then some 0 else (elim (position p xs) [ some i ↦ some (suc i) | none ↦ none ])

  unfoldable pub remove : List A → ℕ → List A
  remove [] i = []
  remove (x ∷ xs) zero = xs
  remove (x ∷ xs) (suc i) = x ∷ remove xs i

  unfoldable pub push_back : Mailbox A → A → Mailbox A
  push_back m a = record m { items = m.items ++ a ∷ [] }

  -- One round of the loop in `put`.
  unfoldable pub put : Mailbox A → A → Mailbox A × Put
  unfolding push_back
  put m a =
      if m.closed
      then (m, refused)
      else if ltb (length m.items) m.capacity
      then (push_back m a, stored)
      else (m, waiting)

  -- `none` if closed, else how many items were dropped.
  unfoldable pub put_lossy : (A → Bool) → Mailbox A → A → Mailbox A × Option ℕ
  unfolding position remove push_back
  put_lossy is_lossy m a =
      if m.closed
      then (m, none)
      else if leb m.capacity (length m.items)
      then (elim (position is_lossy m.items) [
        | some idx ↦
            (push_back (record m { items = remove m.items idx; dropped = m.dropped + 1 }) a, some 1)
        | none ↦ (record m { dropped = m.dropped + 1 }, some 1)
      ])
      else (push_back m a, some 0)

  pop_front : Mailbox A → List A → Mailbox A × Option A
  pop_front m [] = (m, none)
  pop_front m (x ∷ xs) = (record m { items = xs }, some x)

  unfoldable pub try_recv : Mailbox A → Mailbox A × Option A
  unfolding pop_front
  try_recv m = pop_front m m.items

  -- The push of the synchronous publisher: false if closed or full.
  unfoldable pub try_recv_forced : Mailbox A → A → Mailbox A × Bool
  unfolding push_back
  try_recv_forced m a =
      if m.closed
      then (m, false)
      else if leb m.capacity (length m.items)
      then (m, false)
      else (push_back m a, true)

  unfoldable pub close : Mailbox A → Mailbox A
  close m = record m { closed = true }
