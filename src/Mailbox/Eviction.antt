-- ===== src/Mailbox/Eviction.antt =====
-- What a full mailbox gives up for a lossy item.
use hype_edge.Common.{
  ℕ, zero, suc, ◌+◌, ◌≤◌, ◌<◌, ◌≡◌, refl, ◌⊎◌, inl, inr, Bool, true, false, not, Option, none, some,
  List, [], ◌∷◌, ◌++◌, arith, length, length-append, keep, leb, Option-cases, Bool-cases, leb→le,
}
use hype_edge.Mailbox.{Mailbox, position, remove, push_back, put_lossy}

module _ {ℓ} {A : Type ℓ} where
  pub length-push : (xs : List A) (a : A) → length (xs ++ a ∷ []) ≡ suc (length xs)
  length-push xs a = omega (arith, length-append xs (a ∷ []))

  -- The items that may not be dropped.
  abbrev pub reliable : (A → Bool) → List A → List A
  reliable is_lossy xs = keep (λ x. not (is_lossy x)) xs

  -- Removing the first item that passes a test shortens the list by one, and keeps the others.
  position-remove :
      (p : A → Bool) (xs : List A) (i : ℕ)
      → position p xs ≡ some i
      → (suc (length (remove xs i)) ≡ length xs) × (reliable p (remove xs i) ≡ reliable p xs)
  unfolding position remove
  position-remove p [] i h = cc
  position-remove p (x ∷ xs) zero h = ground arith
  position-remove p (x ∷ xs) (suc i) h = ground (arith, position-remove p xs i)

  position-none : (p : A → Bool) (xs : List A) → position p xs ≡ none → keep p xs ≡ []
  unfolding position
  position-none p [] h = refl
  position-none p (x ∷ xs) h = ground (arith, position-none p xs)

  -- What a lossy put into an open mailbox may come to.
  abbrev pub Evicts : (A → Bool) → Mailbox A → A → Mailbox A × Option ℕ → Type ℓ
  Evicts is_lossy m a r =
      ((length m.items < m.capacity) × (r ≡ (record m { items = m.items ++ a ∷ [] }, some 0)))
      ⊎ ((xs : List A) × (m.capacity ≤ length m.items)
          × (suc (length xs) ≡ length m.items)
          × (reliable is_lossy xs ≡ reliable is_lossy m.items)
          × (r ≡ (record m { items = xs ++ a ∷ []; dropped = m.dropped + 1 }, some 1)))
      ⊎ ((m.capacity ≤ length m.items)
          × (keep is_lossy m.items ≡ [])
          × (r ≡ (record m { dropped = m.dropped + 1 }, some 1)))

  -- A lossy put into an open mailbox appends the item and reports no drop if there is space. If
  -- there is none, it either drops one lossy item, keeps every reliable item in its order and
  -- appends the new one, or, where no lossy item is queued, drops the new item; both are
  -- reported and counted as one drop.
  pub put_lossy_cases :
      (is_lossy : A → Bool) (m : Mailbox A) (a : A)
      → m.closed ≡ false
      → Evicts is_lossy m a (put_lossy is_lossy m a)
  put_lossy_cases is_lossy m a h = elim (Bool-cases (leb m.capacity (length m.items))) [
    | inl full ↦ elim (Option-cases (position is_lossy m.items)) [
      | inl e ↦ inr (
          inr (
            leb→le _ _ full,
            position-none is_lossy m.items e,
            unfold put_lossy in simp (h, full, e),
          ))
      | inr (i, e) ↦
          let (shorter, same) = position-remove is_lossy m.items i e in
          inr (
            inl (
              remove m.items i,
              leb→le _ _ full,
              shorter,
              same,
              unfold put_lossy push_back in simp (h, full, e),
            ))
    ]
    | inr room ↦ inl (ground arith, unfold put_lossy in simp (h, room))
  ]

  pub put_lossy_closed :
      (is_lossy : A → Bool) (m : Mailbox A) (a : A)
      → m.closed ≡ true
      → put_lossy is_lossy m a ≡ (m, none)
  unfolding put_lossy
  put_lossy_closed is_lossy m a h = simp h
