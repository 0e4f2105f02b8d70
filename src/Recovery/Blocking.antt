-- ===== src/Recovery/Blocking.antt =====
-- Histories of a recovery registry: crates/trading/src/execution/recovery.rs. Each operation gives a
-- new registry, and one that fails leaves the holder with the old one.
use hype_edge.Common.{
  ℕ, ◌≡◌, refl, Bool, true, false, ◌&&◌, List, [], ◌∷◌, ◌++◌, arith, ◌==◌, ==_iff, ==_refl, any,
  map,
}
use hype_edge.Common.Result.{ok, err}
use hype_edge.Order.{OrderStatus, Side}
use hype_edge.Quotes.{QuoteSlotKey, same_side}
use hype_edge.Recovery.{
  RecoveryOwner, RecoveryRegistry, blocks_placement, is_over, has_cloid, has_duplicate, new,
  register, reconcile, reconcile_one, reconcile_owner, placement_blocked, same_slot,
}

pub data Change : Type 0 where
  registering : RecoveryOwner → Change
  reconciling : ℕ → OrderStatus → Change

unfoldable pub apply : Change → RecoveryRegistry → RecoveryRegistry
apply (registering r) g = register g r
apply (reconciling cloid status) g = elim (reconcile g cloid status) [ ok g' ↦ g' | err e ↦ g ]

unfoldable pub run : List Change → RecoveryRegistry → RecoveryRegistry
run [] g = g
run (c ∷ changes) g = run changes (apply c g)

-- Whether the change says that the order of an identity is over.
abbrev ends : ℕ → Change → Bool
ends cloid (registering r) = false
ends cloid (reconciling c status) = (c == cloid) && is_over status

-- An owner of the identity blocks the slot.
abbrev blocks_slot : ℕ → QuoteSlotKey → RecoveryOwner → Bool
blocks_slot cloid slot r = has_cloid cloid r && same_slot r.slot slot && blocks_placement r

same_side_refl : (s : Side) → same_side s s ≡ true
same_side_refl s = ground arith

same_slot_refl : (s : QuoteSlotKey) → same_slot s s ≡ true
same_slot_refl s =
    ground (arith, ==_refl s.strategy_id, ==_refl s.symbol, ==_refl s.level, same_side_refl s.side)

any-append_left :
    (p : RecoveryOwner → Bool) (xs ys : List RecoveryOwner)
    → any p xs ≡ true
    → any p (xs ++ ys) ≡ true
any-append_left p [] ys h = absurd (cc)
any-append_left p (x ∷ xs) ys h = ground (arith, any-append_left p xs ys)

any-append_right :
    (p : RecoveryOwner → Bool) (xs ys : List RecoveryOwner)
    → any p ys ≡ true
    → any p (xs ++ ys) ≡ true
any-append_right p [] ys h = h
any-append_right p (x ∷ xs) ys h = ground (arith, any-append_right p xs ys)

any_mono :
    (p q : RecoveryOwner → Bool)
    → ((r : RecoveryOwner) → p r ≡ true → q r ≡ true)
    → (xs : List RecoveryOwner) → any p xs ≡ true
    → any q xs ≡ true
any_mono p q h [] e = e
any_mono p q h (x ∷ xs) e = ground (arith, h x, any_mono p q h xs)

any-map :
    (p : RecoveryOwner → Bool) (f : RecoveryOwner → RecoveryOwner)
    → ((r : RecoveryOwner) → p r ≡ true → p (f r) ≡ true)
    → (xs : List RecoveryOwner) → any p xs ≡ true
    → any p (map f xs) ≡ true
any-map p f h [] e = e
any-map p f h (x ∷ xs) e = ground (arith, h x, any-map p f h xs)

-- A change that does not end the identity keeps an owner of it as it is.
spared :
    (cloid c : ℕ) (status : OrderStatus) (slot : QuoteSlotKey) (r : RecoveryOwner)
    → ends cloid (reconciling c status) ≡ false
    → blocks_slot cloid slot r ≡ true
    → blocks_slot cloid slot (reconcile_one c status r) ≡ true
unfolding reconcile_one reconcile_owner
spared cloid c status slot r h e =
    ground (arith, ==_iff r.owner.cloid c, ==_iff r.owner.cloid cloid, ==_refl cloid)

apply_blocks :
    (cloid : ℕ) (slot : QuoteSlotKey) (c : Change) (g : RecoveryRegistry)
    → ends cloid c ≡ false
    → any (blocks_slot cloid slot) g.owners ≡ true
    → any (blocks_slot cloid slot) (apply c g).owners ≡ true
unfolding apply register reconcile
apply_blocks cloid slot (registering r) g h e =
    ground (arith, any-append_left (blocks_slot cloid slot) g.owners (r ∷ []))
apply_blocks cloid slot (reconciling c status) g h e =
    let kept =
      any-map (blocks_slot cloid slot) (reconcile_one c status)
        (λ r. spared cloid c status slot r h) g.owners e in
    ground (arith, kept)

run_keeps :
    (cloid : ℕ) (slot : QuoteSlotKey) (changes : List Change) (g : RecoveryRegistry)
    → any (ends cloid) changes ≡ false
    → any (blocks_slot cloid slot) g.owners ≡ true
    → any (blocks_slot cloid slot) (run changes g).owners ≡ true
unfolding run
run_keeps cloid slot [] g h e = e
run_keeps cloid slot (c ∷ changes) g h e =
    run_keeps cloid slot changes (apply c g) (ground arith)
      (apply_blocks cloid slot c g (ground arith) e)

register_blocks :
    (g : RecoveryRegistry) (r : RecoveryOwner)
    → any (has_cloid r.owner.cloid) g.owners ≡ false
    → blocks_placement r ≡ true
    → any (blocks_slot r.owner.cloid r.slot) (register g r).owners ≡ true
unfolding register
register_blocks g r fresh live =
    let here : any (blocks_slot r.owner.cloid r.slot) (r ∷ []) ≡ true =
      rw (==_refl r.owner.cloid, same_slot_refl r.slot, live) refl in
    rw fresh (any-append_right (blocks_slot r.owner.cloid r.slot) g.owners (r ∷ []) here)

-- After a possible-live owner whose identity is not yet registered is registered, placement on
-- its slot stays blocked through every list of registrations and reconciliations of which none
-- reports its identity as filled, cancelled, rejected or expired.
pub run_blocks :
    (g : RecoveryRegistry) (r : RecoveryOwner) (changes : List Change)
    → any (has_cloid r.owner.cloid) g.owners ≡ false
    → blocks_placement r ≡ true
    → any (ends r.owner.cloid) changes ≡ false
    → placement_blocked (run changes (register g r)) r.slot ≡ true
unfolding placement_blocked
run_blocks g r changes fresh live spares =
    any_mono (blocks_slot r.owner.cloid r.slot) (λ x. same_slot x.slot r.slot && blocks_placement x)
      (λ x e. ground arith) (run changes (register g r)).owners
      (run_keeps r.owner.cloid r.slot changes (register g r) spares
        (register_blocks g r fresh live))

cloid_kept :
    (c : ℕ) (status : OrderStatus) (r : RecoveryOwner) → (reconcile_one c status r).owner ≡ r.owner
unfolding reconcile_one reconcile_owner
cloid_kept c status r = ground arith

reconcile_distinct :
    (seen : List ℕ) (c : ℕ) (status : OrderStatus) (xs : List RecoveryOwner)
    → has_duplicate seen (map (reconcile_one c status) xs) ≡ has_duplicate seen xs
unfolding has_duplicate
reconcile_distinct seen c status [] = refl
reconcile_distinct seen c status (r ∷ xs) =
    rw (cloid_kept c status r) (rw (reconcile_distinct (r.owner.cloid ∷ seen) c status xs) refl)

register_distinct :
    (seen : List ℕ) (r : RecoveryOwner) (xs : List RecoveryOwner)
    → has_duplicate seen xs ≡ false
    → any (λ c. c == r.owner.cloid) seen ≡ false
    → any (has_cloid r.owner.cloid) xs ≡ false
    → has_duplicate seen (xs ++ r ∷ []) ≡ false
unfolding has_duplicate
register_distinct seen r [] h fresh other = ground arith
register_distinct seen r (x ∷ xs) h fresh other =
    ground (arith, register_distinct (x.owner.cloid ∷ seen) r xs)

apply_distinct :
    (c : Change) (g : RecoveryRegistry)
    → has_duplicate [] g.owners ≡ false
    → has_duplicate [] (apply c g).owners ≡ false
unfolding apply register reconcile
apply_distinct (registering r) g h = ground (arith, register_distinct [] r g.owners)
apply_distinct (reconciling c status) g h = ground (arith, reconcile_distinct [] c status g.owners)

run_distinct :
    (changes : List Change) (g : RecoveryRegistry)
    → has_duplicate [] g.owners ≡ false
    → has_duplicate [] (run changes g).owners ≡ false
unfolding run
run_distinct [] g h = h
run_distinct (c ∷ changes) g h = run_distinct changes (apply c g) (apply_distinct c g h)

-- From a registry that the constructor accepts, every list of registrations and reconciliations
-- leads to one that it accepts: no identity stands twice.
pub new-run :
    (owners : List RecoveryOwner) (g : RecoveryRegistry) (changes : List Change)
    → new owners ≡ ok g
    → new (run changes g).owners ≡ ok (run changes g)
unfolding new
new-run owners g changes h =
    let accepted : has_duplicate [] g.owners ≡ false = ground arith in
    rw (run_distinct changes g accepted) refl
