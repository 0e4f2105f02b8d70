-- ===== src/Mailbox/Bounds.antt =====
-- The size of a mailbox and its count of dropped items.
use hype_edge.Common.{
  ℕ, ◌+◌, ◌≤◌, ◌<◌, ◌≡◌, refl, ◌∙◌, ◌⊎◌, inl, inr, Bool, false, some, List, [], ◌∷◌, arith, length,
  Bool-cases,
}
use hype_edge.Mailbox.{Mailbox, put, put_lossy, try_recv, try_recv_forced, close}
use hype_edge.Mailbox.Eviction.{length-push, put_lossy_cases, put_lossy_closed}
use hype_edge.Mailbox.Steps.{Step, offer, force, receive, shut, Trace, step, run}

abbrev pub IsBounded : {A : Type 0} → Mailbox A → Type 0
IsBounded m = length m.items ≤ m.capacity

module _ {A : Type 0} (is_lossy : A → Bool) where
  -- An open mailbox counts what it drops: nothing below its capacity, one item at its capacity.
  pub put_lossy_accounts :
      (m : Mailbox A) (a : A)
      → m.closed ≡ false
      → IsBounded m
      → (d : ℕ) × ((put_lossy is_lossy m a).1 ≡ some d)
        × (length (put_lossy is_lossy m a).0.items + d ≡ length m.items + 1)
        × ((put_lossy is_lossy m a).0.dropped ≡ m.dropped + d)
        × (((d ≡ 0) × (length m.items < m.capacity)) ⊎ ((d ≡ 1) × (length m.items ≡ m.capacity)))
  put_lossy_accounts m a open_box bounded = elim (put_lossy_cases is_lossy m a open_box) [
    | inl (room, e) ↦
        rw e (0, refl, omega (arith, length-push m.items a), omega arith, inl (refl, room))
    | inr (inl (xs, full, shorter, _, e)) ↦
        rw e (1, refl, omega (arith, length-push xs a), refl, inr (refl, omega arith))
    | inr (inr (full, _, e)) ↦ rw e (1, refl, refl, refl, inr (refl, omega arith))
  ]

  put_lossy-IsBounded :
      (m : Mailbox A) (a : A)
      → IsBounded m
      → IsBounded (put_lossy is_lossy m a).0 × ((put_lossy is_lossy m a).0.capacity ≡ m.capacity)
  put_lossy-IsBounded m a h = elim (Bool-cases m.closed) [
    | inl gone ↦ rw (put_lossy_closed is_lossy m a gone) (h, refl)
    | inr open_box ↦ elim (put_lossy_cases is_lossy m a open_box) [
      | inl (room, e) ↦ rw e (omega (arith, length-push m.items a), refl)
      | inr (inl (xs, full, shorter, _, e)) ↦ rw e (omega (arith, length-push xs a), refl)
      | inr (inr (full, _, e)) ↦ rw e (h, refl)
    ]
  ]

  step-IsBounded :
      (t : Trace A) (s : Step A)
      → IsBounded t.box
      → IsBounded (step is_lossy t s).box × ((step is_lossy t s).box.capacity ≡ t.box.capacity)
  unfolding step put try_recv_forced try_recv close
  step-IsBounded t (offer a) h =
      ground (arith, length-push t.box.items a, put_lossy-IsBounded t.box a h)
  step-IsBounded t (force a) h =
      ground (arith, length-push t.box.items a, put_lossy-IsBounded t.box a h)
  step-IsBounded t receive h = ground arith
  step-IsBounded t shut h = ground arith

  -- From a mailbox that holds no more than its capacity, every interleaving of publishers,
  -- consumers and closings leads to one that does not either, with the same capacity.
  pub run-IsBounded :
      (t : Trace A) (ss : List (Step A))
      → IsBounded t.box
      → IsBounded (run is_lossy t ss).box × ((run is_lossy t ss).box.capacity ≡ t.box.capacity)
  unfolding run
  run-IsBounded t [] h = (h, refl)
  run-IsBounded t (s ∷ ss) h =
      let (one, same) = step-IsBounded t s h in
      let (all_steps, kept) = run-IsBounded (step is_lossy t s) ss one in (all_steps, kept ∙ same)
