-- ===== src/Common/Members.antt =====
-- Membership in lists, with the place shown.
use mathlib.Core.List.{Memᴰ}
use mathlib.Core.Path.{◌≡◌, refl, sym, ap, ◌∙◌}
use mathlib.Core.Bool.{Bool, true, false}
use mathlib.Core.List.{List, [], ◌∷◌, ◌++◌}
use mathlib.Core.Logic.{inl, inr}
use native.Mathlib.Omega.{arith}
use hype_edge.Common.Tests.{Bool-cases, if◌then◌else◌}
use hype_edge.Common.Lists.{any, all, keep}

module _ {A : Type 0} where
  pub Memᴰ-append_left : {x : A} {xs : List A} (ys : List A) → Memᴰ x xs → Memᴰ x (xs ++ ys)
  Memᴰ-append_left ys (Memᴰ.head e) = Memᴰ.head e
  Memᴰ-append_left ys (Memᴰ.tail m) = Memᴰ.tail (Memᴰ-append_left ys m)

  pub Memᴰ-append_right : {x : A} (xs : List A) (ys : List A) → Memᴰ x ys → Memᴰ x (xs ++ ys)
  Memᴰ-append_right [] ys m = m
  Memᴰ-append_right (y ∷ xs) ys m = Memᴰ.tail (Memᴰ-append_right xs ys m)

  pub Memᴰ-keep : (p : A → Bool) {x : A} (xs : List A) → Memᴰ x xs → p x ≡ true → Memᴰ x (keep p xs)
  Memᴰ-keep p [] m h = elim m [ ]
  Memᴰ-keep p (y ∷ xs) (Memᴰ.head e) h = rw (sym (ap p e) ∙ h) (Memᴰ.head e)
  Memᴰ-keep p (y ∷ xs) (Memᴰ.tail m) h = elim (Bool-cases (p y)) [
    | inl e ↦ rw e (Memᴰ.tail (Memᴰ-keep p xs m h))
    | inr e ↦ rw e (Memᴰ-keep p xs m h)
  ]

  kept :
      (p : A → Bool) {x : A} (y : A) (xs : List A)
      → (Memᴰ x (keep p xs) → Memᴰ x xs × (p x ≡ true))
      → (b : Bool) → p y ≡ b
      → Memᴰ x (if b then y ∷ keep p xs else keep p xs)
      → Memᴰ x (y ∷ xs) × (p x ≡ true)
  kept p y xs ih true e (Memᴰ.head q) = (Memᴰ.head q, ap p q ∙ e)
  kept p y xs ih true e (Memᴰ.tail m) = (Memᴰ.tail (ih m).0, (ih m).1)
  kept p y xs ih false e m = (Memᴰ.tail (ih m).0, (ih m).1)

  pub keep-Memᴰ :
      (p : A → Bool) {x : A} (xs : List A) → Memᴰ x (keep p xs) → Memᴰ x xs × (p x ≡ true)
  keep-Memᴰ p [] m = elim m [ ]
  keep-Memᴰ p (y ∷ xs) m = kept p y xs (λ n. keep-Memᴰ p xs n) (p y) refl m

  -- A test that some item passes is passed by an item of the list.
  pub any-Memᴰ : (p : A → Bool) (xs : List A) → any p xs ≡ true → (x : A) × Memᴰ x xs × (p x ≡ true)
  any-Memᴰ p [] h = cc
  any-Memᴰ p (y ∷ xs) h = elim (Bool-cases (p y)) [
    | inl e ↦ (y, Memᴰ.head refl, e)
    | inr e ↦ let (x, m, q) = any-Memᴰ p xs (rw e at h) in (x, Memᴰ.tail m, q)
  ]

  pub Memᴰ-any : (p : A → Bool) {x : A} (xs : List A) → Memᴰ x xs → p x ≡ true → any p xs ≡ true
  Memᴰ-any p [] m h = elim m [ ]
  Memᴰ-any p (y ∷ xs) (Memᴰ.head e) h = rw (sym (ap p e) ∙ h)
  Memᴰ-any p (y ∷ xs) (Memᴰ.tail m) h = ground (arith, Memᴰ-any p xs m h)

  pub all-Memᴰ : (p : A → Bool) {x : A} (xs : List A) → all p xs ≡ true → Memᴰ x xs → p x ≡ true
  all-Memᴰ p [] h m = elim m [ ]
  all-Memᴰ p (y ∷ xs) h (Memᴰ.head e) = ap p e ∙ ground arith
  all-Memᴰ p (y ∷ xs) h (Memᴰ.tail m) = all-Memᴰ p xs (ground arith) m

  pub all_intro :
      (p : A → Bool) (xs : List A) → ((x : A) → Memᴰ x xs → p x ≡ true) → all p xs ≡ true
  all_intro p [] h = refl
  all_intro p (y ∷ xs) h = rw (h y (Memᴰ.head refl)) (all_intro p xs (λ x m. h x (Memᴰ.tail m)))
