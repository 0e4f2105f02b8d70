-- ===== src/Batch/Command.antt =====
-- Commands: what construction guarantees, and what replacing a child keeps.
use mathlib.Core.List.{Perm, Memᴰ}
use mathlib.Core.List.Perm
use hype_edge.Common.{
  ℕ, suc, ◌≤◌, ◌≡◌, refl, sym, ap, ◌∙◌, inl, inr, true, false, List, [], ◌∷◌, map, arith, any, leb,
  length, ◌==◌, ==_iff, Bool-cases,
}
use hype_edge.Common.Int.{ℤ, pos, ◌≤ℤ◌, ltb_ℤ}
use hype_edge.Common.Result.{ok}
use hype_edge.Batch.{
  BatchChild, BatchExecutionCommand, child_ids, distinct_count, sorted_insert, sort, count_from,
  same_list, dependencies_inside, new_command, replace_in, replace_child,
}

abbrev pub Distinct : List ℕ → Type 0
Distinct [] = Unit
Distinct (x ∷ xs) = (any (λ y. x == y) xs ≡ false) × Distinct xs

distinct_count-le : (xs : List ℕ) → distinct_count xs ≤ length xs
unfolding distinct_count
distinct_count-le [] = omega arith
distinct_count-le (x ∷ xs) = ground (arith, distinct_count-le xs)

Distinct-count : (xs : List ℕ) → distinct_count xs ≡ length xs → Distinct xs
unfolding distinct_count
Distinct-count [] h = tt
Distinct-count (x ∷ xs) h = ground (arith, distinct_count-le xs, Distinct-count xs)

sorted_insert-perm : (x : ℕ) (xs : List ℕ) → Perm (sorted_insert x xs) (x ∷ xs)
unfolding sorted_insert
sorted_insert-perm x [] = Perm.refl (x ∷ [])
sorted_insert-perm x (y ∷ ys) = elim (Bool-cases (leb x y)) [
  | inl e ↦ rw e (Perm.refl (x ∷ y ∷ ys))
  | inr e ↦ rw e (Perm.trans (Perm.cons y (sorted_insert-perm x ys)) (Perm.swap x y ys))
]

sort-perm : (xs : List ℕ) → Perm (sort xs) xs
unfolding sort
sort-perm [] = Perm.refl []
sort-perm (x ∷ xs) = Perm.trans (sorted_insert-perm x (sort xs)) (Perm.cons x (sort-perm xs))

same_list-eq : (xs ys : List ℕ) → same_list xs ys ≡ true → xs ≡ ys
unfolding same_list
same_list-eq [] [] h = refl
same_list-eq [] (y ∷ ys) h = cc
same_list-eq (x ∷ xs) [] h = cc
same_list-eq (x ∷ xs) (y ∷ ys) h = ground (arith, ==_iff x y, same_list-eq xs ys)

abbrev ordinals : List BatchChild → List ℕ
ordinals cs = map (λ (c : BatchChild). c.ordinal) cs

-- The identities are distinct, the ordinals are 0, 1, …, n - 1 in some order, and each dependency
-- names a child of the command.
pub record IsWellFormed (cs : List BatchChild) : Type 0 where
  pub distinct : Distinct (child_ids cs)
  pub contiguous : Perm (ordinals cs) (count_from 0 (length cs))
  pub inside : dependencies_inside (child_ids cs) cs ≡ true

new_command_inv :
    (i : ℕ) (revision : ℤ) (cs : List BatchChild) (b : BatchExecutionCommand)
    → new_command i revision cs ≡ ok b
    → (b.children ≡ cs)
      × (ltb_ℤ revision (pos 0) ≡ false)
      × ((distinct_count (child_ids cs) == length cs) ≡ true)
      × (same_list (sort (ordinals cs)) (count_from 0 (length cs)) ≡ true)
      × (dependencies_inside (child_ids cs) cs ≡ true)
unfolding new_command
new_command_inv i revision cs b h = ground arith

length-child_ids : (cs : List BatchChild) → length (child_ids cs) ≡ length cs
length-child_ids [] = refl
length-child_ids (c ∷ cs) = ap suc (length-child_ids cs)

-- A command that is constructed successfully has the given children and a revision that is not
-- negative; the identities of its children are distinct, their ordinals are a permutation of 0,
-- 1, …, n - 1, and every dependency names a child of the command.
pub new_command-IsWellFormed :
    (i : ℕ) (revision : ℤ) (cs : List BatchChild) {b : BatchExecutionCommand}
    → new_command i revision cs ≡ ok b
    → (b.children ≡ cs) × (pos 0 ≤ℤ revision) × IsWellFormed b.children
new_command-IsWellFormed i revision cs {b} h =
    let (same, nonneg, ids, ords, deps) = new_command_inv i revision cs b h in
    (
      same,
      ground arith,
      rw same (record {
        distinct = Distinct-count (child_ids cs) ((==_iff _ _).0 ids ∙ sym (length-child_ids cs));
        contiguous = rw (← same_list-eq _ _ ords) (Perm.symm (sort-perm (ordinals cs)));
        inside = deps;
      }),
    )

module _ (b : BatchExecutionCommand) (u : BatchChild) where
  replace_cases :
      (b' : BatchExecutionCommand)
      → replace_child b u ≡ ok b'
      → b' ≡ record b { children = replace_in u b.children }
  unfolding replace_child
  replace_cases b' h = ground arith

-- A child that replaces one of the same identity, ordinal and dependency.
abbrev pub Replaces : BatchChild → List BatchChild → Type 0
Replaces u cs =
    (c : BatchChild)
    → Memᴰ c cs
    → c.child_id ≡ u.child_id
    → (u.ordinal ≡ c.ordinal) × (u.depends_on ≡ c.depends_on)

child_ids-replace :
    (u : BatchChild) (cs : List BatchChild) → child_ids (replace_in u cs) ≡ child_ids cs
unfolding replace_in
child_ids-replace u [] = refl
child_ids-replace u (c ∷ cs) = ground (arith, ==_iff c.child_id u.child_id, child_ids-replace u cs)

length-replace : (u : BatchChild) (cs : List BatchChild) → length (replace_in u cs) ≡ length cs
unfolding replace_in
length-replace u [] = refl
length-replace u (c ∷ cs) = ap suc (length-replace u cs)

ordinals-replace :
    (u : BatchChild) (cs : List BatchChild)
    → Replaces u cs
    → ordinals (replace_in u cs) ≡ ordinals cs
unfolding replace_in
ordinals-replace u [] r = refl
ordinals-replace u (c ∷ cs) r =
    let ih = ordinals-replace u cs (λ d m. r d (Memᴰ.tail m)) in
    let here = r c (Memᴰ.head refl) in ground (arith, ==_iff c.child_id u.child_id, here, ih)

dependencies-replace :
    (ids : List ℕ) (u : BatchChild) (cs : List BatchChild)
    → Replaces u cs
    → dependencies_inside ids (replace_in u cs) ≡ dependencies_inside ids cs
unfolding replace_in dependencies_inside
dependencies-replace ids u [] r = refl
dependencies-replace ids u (c ∷ cs) r =
    let ih = dependencies-replace ids u cs (λ d m. r d (Memᴰ.tail m)) in
    let here = r c (Memᴰ.head refl) in ground (arith, ==_iff c.child_id u.child_id, here, ih)

-- Replacing a child of a well-formed command by one with the same identity, ordinal and
-- dependency gives a well-formed command.
pub replace_child-IsWellFormed :
    (b b' : BatchExecutionCommand) (u : BatchChild)
    → IsWellFormed b.children
    → Replaces u b.children
    → replace_child b u ≡ ok b'
    → IsWellFormed b'.children
replace_child-IsWellFormed b b' u w r h = rw (replace_cases b u b' h) (record {
  distinct = rw (child_ids-replace u b.children) w.distinct;
  contiguous = rw (ordinals-replace u b.children r, length-replace u b.children) w.contiguous;
  inside =
      rw (child_ids-replace u b.children)
        (dependencies-replace (child_ids b.children) u b.children r ∙ w.inside);
})
