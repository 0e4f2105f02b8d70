-- ===== src/Tracker/Outstanding.antt =====
-- The provisional fees that crates/trading/src/account/tracker.rs holds by the identity of an order, and
-- sums and differences of amounts.
use hype_edge.Common.{ℕ, ◌+◌, ◌-◌, ◌≤◌, ◌≡◌, refl, Option, none, some, List, [], ◌∷◌, arith, ==_iff}
use hype_edge.Common.Int.{pos, ◌+ℤ◌, ◌-ℤ◌, magnitude}
use hype_edge.Common.Maps.{lookup, insert, remove, IsMap, insert-IsMap, remove-none}
use hype_edge.Decimal.{Decimal, add, sub, abs}
use hype_edge.Decimal.Machine.{i128_max}

abbrev pub amount : Decimal → ℕ
amount d = magnitude d.raw

abbrev pub owed : Option Decimal → ℕ
owed none = 0
owed (some d) = amount d

-- The provisional fees that no committed fill has replaced.
unfoldable pub outstanding : List (ℕ × Decimal) → ℕ
outstanding [] = 0
outstanding (e ∷ m) = amount e.1 + outstanding m

-- Every provisional fee is at least zero.
abbrev pub IsOwed : List (ℕ × Decimal) → Type 0
IsOwed [] = Unit
IsOwed (e ∷ m) = (e.1.raw ≡ pos (amount e.1)) × IsOwed m

pub outstanding-remove :
    (k : ℕ) (m : List (ℕ × Decimal))
    → IsMap m
    → outstanding m ≡ owed (lookup k m) + outstanding (remove k m)
unfolding outstanding lookup remove
outstanding-remove k [] h = refl
outstanding-remove k (e ∷ m) h =
    ground (arith, ==_iff e.0 k, outstanding-remove k m h.1, remove-none k m)

pub remove-IsOwed : (k : ℕ) (m : List (ℕ × Decimal)) → IsOwed m → IsOwed (remove k m)
unfolding remove
remove-IsOwed k [] h = tt
remove-IsOwed k (e ∷ m) h = ground (arith, remove-IsOwed k m h.1)

pub lookup-IsOwed :
    (k : ℕ) (m : List (ℕ × Decimal)) (d : Decimal)
    → IsOwed m
    → lookup k m ≡ some d
    → d.raw ≡ pos (amount d)
unfolding lookup
lookup-IsOwed k [] d h e = ground arith
lookup-IsOwed k (e ∷ m) d h l = ground (arith, lookup-IsOwed k m d h.1)

-- An insertion replaces what its key owed.
pub insert-outstanding :
    (k : ℕ) (d : Decimal) (m : List (ℕ × Decimal))
    → IsMap m
    → outstanding (insert k d m) + owed (lookup k m) ≡ amount d + outstanding m
unfolding outstanding insert
insert-outstanding k d m h = ground (arith, outstanding-remove k m h)

pub insert-IsOwed :
    (k : ℕ) (d : Decimal) (m : List (ℕ × Decimal))
    → d.raw ≡ pos (amount d)
    → IsOwed m
    → IsOwed (insert k d m)
unfolding insert
insert-IsOwed k d m e h = (e, remove-IsOwed k m h)

pub abs-amount :
    (d : Decimal) → amount d ≤ magnitude i128_max → abs d ≡ record { raw = pos (amount d) }
unfolding abs
abs-amount d h = ground arith

pub add-amounts :
    (a b : Decimal) (m n : ℕ)
    → a.raw ≡ pos m
    → b.raw ≡ pos n
    → m + n ≤ magnitude i128_max
    → add a b ≡ record { raw = pos (m + n) }
unfolding add ◌+ℤ◌
add-amounts a b m n h k l = ground arith

pub sub-amounts :
    (a b : Decimal) (m n : ℕ)
    → a.raw ≡ pos m
    → b.raw ≡ pos n
    → n ≤ m
    → m ≤ magnitude i128_max
    → sub a b ≡ record { raw = pos (m - n) }
unfolding sub ◌-ℤ◌
sub-amounts a b m n h k l o = ground arith

-- A map that owes `n` in all.
abbrev pub Owes : List (ℕ × Decimal) → ℕ → Type 0
Owes m n = IsMap m × IsOwed m × (outstanding m ≡ n)

pub insert-Owes :
    (k : ℕ) (d : Decimal) (m : List (ℕ × Decimal)) (n : ℕ)
    → IsMap m
    → IsOwed m
    → d.raw ≡ pos (amount d)
    → n + owed (lookup k m) ≡ amount d + outstanding m
    → Owes (insert k d m) n
insert-Owes k d m n hm ho e b =
    (insert-IsMap k d m hm, insert-IsOwed k d m e ho, omega (arith, insert-outstanding k d m hm))
