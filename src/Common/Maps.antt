-- ===== src/Common/Maps.antt =====
-- Maps with keys that are numbers, as association lists: an insertion replaces the entry of its key.
use Prim.Native.Nat.{ℕ}
use mathlib.Core.Path.{◌≡◌, refl}
use mathlib.Core.Option.{Option, none, some}
use mathlib.Core.List.{List, [], ◌∷◌}
use native.Mathlib.Omega.{arith}
use hype_edge.Common.Tests.{◌==◌, ==_iff, ==_refl, if◌then◌else◌}

module _ {V : Type 0} where
  unfoldable pub lookup : ℕ → List (ℕ × V) → Option V
  lookup k [] = none
  lookup k (e ∷ m) = if e.0 == k then some e.1 else lookup k m

  unfoldable pub remove : ℕ → List (ℕ × V) → List (ℕ × V)
  remove k [] = []
  remove k (e ∷ m) = if e.0 == k then remove k m else e ∷ remove k m

  unfoldable pub insert : ℕ → V → List (ℕ × V) → List (ℕ × V)
  unfolding remove
  insert k v m = (k, v) ∷ remove k m

  pub lookup-remove :
      (k j : ℕ) (m : List (ℕ × V)) → lookup j (remove k m) ≡ (if k == j then none else lookup j m)
  unfolding lookup remove
  lookup-remove k j [] = ground arith
  lookup-remove k j (e ∷ m) =
      ground (arith, ==_iff k j, ==_iff e.0 k, ==_iff e.0 j, lookup-remove k j m)

  pub lookup-insert :
      (k j : ℕ) (v : V) (m : List (ℕ × V))
      → lookup j (insert k v m) ≡ (if k == j then some v else lookup j m)
  unfolding lookup insert
  lookup-insert k j v m = ground (arith, lookup-remove k j m)

  -- No key stands twice.
  abbrev pub IsMap : List (ℕ × V) → Type 0
  IsMap [] = Unit
  IsMap (e ∷ m) = (lookup e.0 m ≡ none) × IsMap m

  pub remove-IsMap : (k : ℕ) (m : List (ℕ × V)) → IsMap m → IsMap (remove k m)
  unfolding remove
  remove-IsMap k [] h = tt
  remove-IsMap k (e ∷ m) h = ground (arith, lookup-remove k e.0 m, remove-IsMap k m h.1)

  pub insert-IsMap : (k : ℕ) (v : V) (m : List (ℕ × V)) → IsMap m → IsMap (insert k v m)
  unfolding insert
  insert-IsMap k v m h = (ground (arith, lookup-remove k k m, ==_refl k), remove-IsMap k m h)

  pub remove-none : (k : ℕ) (m : List (ℕ × V)) → lookup k m ≡ none → remove k m ≡ m
  unfolding lookup remove
  remove-none k [] h = refl
  remove-none k (e ∷ m) h = ground (arith, remove-none k m)
