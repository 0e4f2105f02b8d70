-- ===== src/Batch/Costs.antt =====
-- What a child costs: one action for each attempt that crossed the network.
use hype_edge.Common.{
  ℕ, suc, ◌≡◌, refl, ap, Bool, true, List, [], ◌∷◌, ◌++◌, map, arith, any, ◌==◌, ==_iff,
  if◌then◌else◌,
}
use hype_edge.Common.Result.{ok}
use hype_edge.Batch.{BatchChild, NetworkAttempt, distinct_count, child_cost, record_attempt}

any-append :
    (p : ℕ → Bool) (xs : List ℕ) (a : ℕ) → any p (xs ++ a ∷ []) ≡ (if any p xs then true else p a)
any-append p [] a = ground arith
any-append p (x ∷ xs) a = ground (arith, any-append p xs a)

-- A new number counts once.
distinct_count-append :
    (xs : List ℕ) (a : ℕ)
    → distinct_count (xs ++ a ∷ [])
      ≡ (if any (λ x. x == a) xs then distinct_count xs else suc (distinct_count xs))
unfolding distinct_count
distinct_count-append [] a = refl
distinct_count-append (x ∷ xs) a =
    rw (any-append (λ y. x == y) xs a)
      (ground (arith, distinct_count-append xs a, ==_iff x a, counted x xs a))
  where
    counted : (x : ℕ) (xs : List ℕ) (a : ℕ) → x ≡ a → any (λ y. x == y) xs ≡ any (λ y. y == a) xs
    counted x [] a e = refl
    counted x (y ∷ xs) a e = ground (arith, counted x xs a e)

ids-append :
    (xs : List NetworkAttempt) (a : NetworkAttempt)
    → map (λ (x : NetworkAttempt). x.attempt_id) (xs ++ a ∷ [])
      ≡ map (λ (x : NetworkAttempt). x.attempt_id) xs ++ a.attempt_id ∷ []
ids-append [] a = refl
ids-append (x ∷ xs) a = ap (λ (l : List ℕ). x.attempt_id ∷ l) (ids-append xs a)

any-ids :
    (xs : List NetworkAttempt) (i : ℕ)
    → any (λ (x : NetworkAttempt). x.attempt_id == i) xs
      ≡ any (λ x. x == i) (map (λ (x : NetworkAttempt). x.attempt_id) xs)
any-ids [] i = refl
any-ids (x ∷ xs) i = ground (arith, any-ids xs i)

-- Where recording an attempt succeeds, the cost of the child grows by one if the attempt's
-- identity is new, and is unchanged if it was recorded before.
pub child_cost-record_attempt :
    (c c' : BatchChild) (a : NetworkAttempt)
    → record_attempt c a ≡ ok c'
    → child_cost c' ≡ (
        if any (λ (x : NetworkAttempt). x.attempt_id == a.attempt_id) c.attempts
        then child_cost c
        else suc (child_cost c))
unfolding record_attempt child_cost
child_cost-record_attempt c c' a h = ground (
  arith,
  ids-append c.attempts a,
  any-ids c.attempts a.attempt_id,
  distinct_count-append (map (λ (x : NetworkAttempt). x.attempt_id) c.attempts) a.attempt_id,
)
