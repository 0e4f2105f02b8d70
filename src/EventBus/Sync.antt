-- ===== src/EventBus/Sync.antt =====
-- Synchronous publishing while no other thread touches the mailboxes.
use hype_edge.Common.{
  ℕ, zero, suc, ◌≡◌, refl, ◌∙◌, ◌≢◌, inl, inr, Bool, true, false, not, ◌&&◌, List, [], ◌∷◌, arith,
  All, any, ltb, length, ◌==◌, ==_iff, Bool-cases, if◌then◌else◌,
}
use hype_edge.Common.Result.{ok}
use hype_edge.Mailbox.{Mailbox, push_back, try_recv_forced}
use hype_edge.EventBus.{Event, Bus, event_is_lossy, push_sync, deliver_sync, set_box}

abbrev pub Distinct : List ℕ → Type 0
Distinct [] = Unit
Distinct (i ∷ is) = All (λ j. i ≢ j) is × Distinct is

absent : (i : ℕ) (is : List ℕ) → All (λ j. i ≢ j) is → any (λ j. j == i) is ≡ false
absent i [] h = refl
absent i (j ∷ is) h = ground (arith, absent i is h.1)

module _ {P : Type 0} where
  -- Open, with space for one more item.
  abbrev pub has_room : Bus P → ℕ → Bool
  has_room b i = not (b.boxes i).closed && ltb (length (b.boxes i).items) (b.boxes i).capacity

  -- The mailboxes after the event was appended to each of the targets.
  abbrev pub appended : Event P → List ℕ → Bus P → ℕ → Mailbox (Event P)
  appended e is b j = if any (λ i. i == j) is then push_back (b.boxes j) e else b.boxes j

  push_sync_quiet :
      (left i : ℕ) (e : Event P) (b : Bus P)
      → push_sync (λ c. c) (suc left) i e b ≡ (
          if has_room b i
          then (record b { boxes = set_box b.boxes i (push_back (b.boxes i) e) }, true)
          else (b, false))
  unfolding push_sync try_recv_forced push_back
  push_sync_quiet zero i e b = ground arith
  push_sync_quiet (suc left) i e b = ground (arith, push_sync_quiet left i e b)

  still_room :
      (e : Event P) (b : Bus P) (i : ℕ) (is : List ℕ)
      → All (λ j. i ≢ j) is
      → All (λ j. has_room b j ≡ true) is
      → All
          (λ j.
            has_room (record b { boxes = set_box b.boxes i (push_back (b.boxes i) e) }) j ≡ true)
          is
  still_room e b i [] d h = tt
  still_room e b i (j ∷ is) d h = (ground (arith, ==_iff i j), still_room e b i is d.1 h.1)

  appended-cons :
      (e : Event P) (b : Bus P) (i : ℕ) (is : List ℕ) (j : ℕ)
      → All (λ k. i ≢ k) is
      → appended e is (record b { boxes = set_box b.boxes i (push_back (b.boxes i) e) }) j
        ≡ appended e (i ∷ is) b j
  appended-cons e b i is j d = elim (Bool-cases (i == j)) [
    | inl same ↦ let eq = (==_iff i j).0 same in rw (same, ← eq, absent i is d)
    | inr other ↦ rw other
  ]

  -- While no other thread touches the mailboxes, a reliable event sent synchronously to distinct
  -- targets that are all open and have space is accepted: the publication succeeds and is
  -- counted once, each target has the event appended, and every other mailbox is as before.
  pub deliver_sync_quiet :
      (e : Event P) (is : List ℕ) (b : Bus P)
      → event_is_lossy e ≡ false
      → Distinct is
      → All (λ i. has_room b i ≡ true) is
      → let r = deliver_sync (λ c. c) is e b in
        (r.1 ≡ ok tt)
        × (r.0.publish_count ≡ suc b.publish_count)
        × ((j : ℕ) → r.0.boxes j ≡ appended e is b j)
  unfolding deliver_sync
  deliver_sync_quiet e [] b rel d h = (refl, refl, λ j. refl)
  deliver_sync_quiet e (i ∷ is) b rel d h =
      let b' : Bus P = record b { boxes = set_box b.boxes i (push_back (b.boxes i) e) } in
      let (good, counted, boxes) =
        deliver_sync_quiet e is b' rel d.1 (still_room e b i is d.0 h.1) in
      let one : push_sync (λ c. c) 100 i e b ≡ (b', true) =
        push_sync_quiet 99 i e b ∙ rw h.0 refl in
      rw (rel, one) (good, counted, λ j. boxes j ∙ appended-cons e b i is j d.0)
