-- ===== src/Recovery/Age.antt =====
-- The age of possible-live orders: crates/trading/src/execution/recovery.rs,
-- `oldest_unresolved_age` and `sla_exceeded`.
use hype_edge.Common.{
  ℕ, ◌≡◌, ◌≢◌, refl, ap, ◌∙◌, Bool, true, false, ◌&&◌, Option, none, some, List, [], ◌∷◌, arith,
  ltb, ◌==◌, if◌then◌else◌, any, keep,
}
use hype_edge.Common.Result.{ok}
use hype_edge.Common.Int.{ℤ, leb_ℤ, -ℤ_parts}
use hype_edge.Recovery.{
  RecoveryOwner, RecoveryRegistry, blocks_placement, unresolved, earliest, age_at, exceeds,
  oldest_unresolved_age, sla_exceeded,
}

abbrev is_late : ℕ → ℤ → RecoveryOwner → Bool
is_late sla now r = ltb sla (age_at now r.discovered_at)

-- The earliest of two is late if either is.
late_min :
    (sla : ℕ) (now a b : ℤ)
    → ltb sla (age_at now (if leb_ℤ a b then a else b))
      ≡ (if ltb sla (age_at now a) then true else ltb sla (age_at now b))
late_min sla now a b = ground (arith, -ℤ_parts now a, -ℤ_parts now b)

oldest_age : ℤ → Option ℤ → Option ℕ
oldest_age now o = elim o [ some t ↦ some (age_at now t) | none ↦ none ]

join_late :
    (sla : ℕ) (now : ℤ) (r : RecoveryOwner) (t : Option ℤ)
    → exceeds sla (
        oldest_age now (elim t [
          | some u ↦ some (if leb_ℤ r.discovered_at u then r.discovered_at else u)
          | none ↦ some r.discovered_at
        ]))
      ≡ (if is_late sla now r then true else exceeds sla (oldest_age now t))
unfolding oldest_age
join_late sla now r none = ground arith
join_late sla now r (some u) = late_min sla now r.discovered_at u

earliest_late :
    (sla : ℕ) (now : ℤ) (owners : List RecoveryOwner)
    → exceeds sla (oldest_age now (earliest owners)) ≡ any (is_late sla now) owners
unfolding earliest
earliest_late sla now [] = unfold oldest_age in refl
earliest_late sla now (r ∷ owners) =
    join_late sla now r (earliest owners)
    ∙ ap (λ rest. if is_late sla now r then true else rest) (earliest_late sla now owners)

any-keep :
    (p q : RecoveryOwner → Bool) (xs : List RecoveryOwner)
    → any p (keep q xs) ≡ any (λ x. q x && p x) xs
any-keep p q [] = refl
any-keep p q (x ∷ xs) = ground (arith, any-keep p q xs)

nonzero : (n : ℕ) → n ≢ 0 → (n == 0) ≡ false
nonzero n h = ground (arith, h)

-- For a limit other than zero, the limit is exceeded exactly if some owner that still blocks
-- placement was discovered longer ago than the limit.
pub sla_exceeded-any :
    (g : RecoveryRegistry) (now : ℤ) (sla : ℕ)
    → sla ≢ 0
    → sla_exceeded g now sla
      ≡ ok (any (λ r. blocks_placement r && ltb sla (age_at now r.discovered_at)) g.owners)
unfolding sla_exceeded oldest_unresolved_age unresolved oldest_age
sla_exceeded-any g now sla h =
    let late =
      earliest_late sla now (keep blocks_placement g.owners)
      ∙ any-keep (is_late sla now) blocks_placement g.owners in
    rw (nonzero sla h) (ap ok late)
