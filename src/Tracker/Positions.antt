-- ===== src/Tracker/Positions.antt =====
-- The positions are the running sums of the fills, crates/trading/src/account/tracker.rs.
use hype_edge.Common.{
  ℕ, ◌≡◌, ◌≢◌, refl, ◌∙◌, ap, sym, All, Bool, true, false, not, ◌&&◌, Option, none, some, List, [],
  ◌∷◌, arith, ◌==◌, if◌then◌else◌, Bool-cases, Option-cases, inl, inr,
}
use mathlib.Core.Path.{fun_ext}
use hype_edge.Common.Int.{ℤ, pos, negsuc, ◌+ℤ◌, ◌-ℤ◌, neg}
use hype_edge.Decimal.Machine.{saturate}
use hype_edge.Common.Maps.{lookup, insert, lookup-insert, lookup-remove}
use hype_edge.Decimal.{Decimal, decimal_zero, add, sub, abs, div, negate, is_zero, is_positive, mul}
use hype_edge.Decimal.Quotients.{div_total}
use hype_edge.Decimal.WideInteger.{Wide, InI128}
use hype_edge.Tracker.{
  Fill, Position, TrackerState, update_fill, fill_positions, moved, vwap, opened, shift, put,
  is_buy, record_fill_accounting, or_else,
}

-- The abstract view of the positions: a signed size for every symbol, zero for none.
abbrev pub size_in : Option Position → Decimal
size_in none = decimal_zero
size_in (some p) = p.size

abbrev pub size_of : TrackerState → ℕ → Decimal
size_of t s = size_in (lookup s t.positions)

positive-ne-zero : (d : Decimal) → is_positive d ≡ true → is_zero d ≡ false
unfolding is_positive is_zero
positive-ne-zero d h = ground arith

zero_of_is_zero : (d : Decimal) → is_zero d ≡ true → decimal_zero ≡ d
unfolding is_zero
zero_of_is_zero d h = ground arith

vwap_total : (w : Wide) (p : Position) (f : Fill) (size : Decimal) → vwap w p f size ≢ none
unfolding vwap
vwap_total w p f size e = elim (Bool-cases (is_positive (abs size))) [
  | inl h ↦
      div_total w (add (mul w (abs p.size) (or_else p.entry_price f.price)) (mul w f.size f.price))
        (abs size) (positive-ne-zero (abs size) h) (branch h e)
  | inr h ↦ cc
]
  where
    branch :
        is_positive (abs size) ≡ true
        → vwap w p f size ≡ none
        → div w
            (add (mul w (abs p.size) (or_else p.entry_price f.price)) (mul w f.size f.price))
            (abs size)
          ≡ none
    branch h e = cc

zero-add : (d : Decimal) → InI128 d.raw → add decimal_zero d ≡ d
unfolding add ◌+ℤ◌
zero-add d h = ground arith

zero-sub : (d : Decimal) → sub decimal_zero d ≡ negate d
unfolding sub negate ◌-ℤ◌ neg
zero-sub d = ap (λ (z : ℤ). record { raw = saturate z }) (zero_minus d.raw)
  where
    zero_minus : (z : ℤ) → pos 0 -ℤ z ≡ neg z
    zero_minus (pos n) = ground arith
    zero_minus (negsuc n) = ground arith

moved_total : (w : Wide) (p : Position) (f : Fill) (size : Decimal) → moved w p f size ≢ none
unfolding moved
moved_total w p f size h = elim (Option-cases (vwap w p f size)) [
  | inl k ↦ vwap_total w p f size k
  | inr (entry, k) ↦ ground arith
]

opened-size : (f : Fill) → InI128 f.size.raw → (opened f).size ≡ shift decimal_zero f
unfolding opened shift
opened-size f h = elim (Bool-cases (is_buy f.side)) [
  | inl b ↦ rw b (sym (zero-add f.size h))
  | inr b ↦ rw b (sym (zero-sub f.size))
]

-- What becomes of a position has the new size.
moved-size :
    (w : Wide) (p : Position) (f : Fill) (size : Decimal) (left : Option Position)
    → moved w p f size ≡ some left
    → size_in left ≡ size
unfolding moved
moved-size w p f size left h = elim (Bool-cases (is_zero size)) [
  | inl z ↦ left_closed left z (zero_of_is_zero size z) h
  | inr z ↦ left_open left z h
]
  where
    left_closed :
        (l : Option Position)
        → is_zero size ≡ true
        → decimal_zero ≡ size
        → moved w p f size ≡ some l
        → size_in l ≡ size
    left_closed none z e k = e
    left_closed (some q) z e k = cc

    left_open :
        (l : Option Position) → is_zero size ≡ false → moved w p f size ≡ some l → size_in l ≡ size
    left_open l z k = elim (Option-cases (vwap w p f size)) [
      | inl v ↦ ground arith
      | inr (entry, v) ↦ ground arith
    ]

some_injective : {A : Type 0} (x y : A) → some y ≡ some x → x ≡ y
some_injective x y e = cc

over_if :
    (b : Bool) (x y : Option Position)
    → size_in (if b then x else y) ≡ (if b then size_in x else size_in y)
over_if true x y = refl
over_if false x y = refl

-- What the map of positions says of a symbol after an entry is replaced or removed.
put-size :
    (k j : ℕ) (left : Option Position) (m : List (ℕ × Position))
    → size_in (lookup j (put k left m)) ≡ (if k == j then size_in left else size_in (lookup j m))
put-size k j none m = rw (lookup-remove k j m) (over_if (k == j) none (lookup j m))
put-size k j (some p) m = rw (lookup-insert k j p m) (over_if (k == j) (some p) (lookup j m))

fill_positions-size :
    (w : Wide) (m m' : List (ℕ × Position)) (f : Fill) (held : Option Position) (j : ℕ)
    → InI128 f.size.raw
    → fill_positions w m f held ≡ some m'
    → size_in (lookup j m')
      ≡ (if f.symbol == j then shift (size_in held) f else size_in (lookup j m))
unfolding fill_positions
fill_positions-size w m m' f none j h e =
    rw (some_injective m' (insert f.symbol (opened f) m) e, sym (opened-size f h))
      (put-size f.symbol j (some (opened f)) m)
fill_positions-size w m m' f (some p) j h e = elim (Option-cases (moved w p f (shift p.size f))) [
  | inl k ↦ ground arith
  | inr (left, k) ↦
      rw
        (
          some_injective m' (put f.symbol left m) (ground arith),
          sym (moved-size w p f (shift p.size f) left k),
        )
        (put-size f.symbol j left m)
]

pub fill_positions_total :
    (w : Wide) (m : List (ℕ × Position)) (f : Fill) (held : Option Position)
    → (m' : List (ℕ × Position)) × (fill_positions w m f held ≡ some m')
unfolding fill_positions
fill_positions_total w m f none = (insert f.symbol (opened f) m, refl)
fill_positions_total w m f (some p) = elim (Option-cases (moved w p f (shift p.size f))) [
  | inl k ↦ absurd (moved_total w p f (shift p.size f) k)
  | inr (left, k) ↦ (put f.symbol left m, ground (arith, k))
]

-- A fill as it changes the abstract view: only a perpetual one, and only its symbol.
abbrev pub abstract_fill : (ℕ → Decimal) → Fill → ℕ → Decimal
abstract_fill sizes f j =
    if not f.is_spot && (f.symbol == j) then shift (sizes f.symbol) f else sizes j

abbrev pub abstract_run : (ℕ → Decimal) → List (ℤ × Fill) → ℕ → Decimal
abstract_run sizes [] = sizes
abstract_run sizes (e ∷ fs) = abstract_run (abstract_fill sizes e.1) fs

-- The fills one after the other, each with the time of its arrival.
unfoldable pub run_fills : Wide → TrackerState → List (ℤ × Fill) → Option TrackerState
run_fills w t [] = some t
run_fills w t (e ∷ fs) = elim (update_fill w e.0 t e.1) [
  | none ↦ none
  | some t' ↦ run_fills w t' fs
]

update_fill_step :
    (w : Wide) (now : ℤ) (t : TrackerState) (f : Fill)
    → InI128 f.size.raw
    → (t' : TrackerState) × (update_fill w now t f ≡ some t')
      × ((j : ℕ) → size_of t' j ≡ abstract_fill (size_of t) f j)
unfolding update_fill record_fill_accounting
update_fill_step w now t f h = elim (Bool-cases f.is_spot) [
  | inl s ↦ (record_fill_accounting now t f, ground arith, λ j. untouched s j)
  | inr s ↦
      let held = lookup f.symbol t.positions in
      let filled = fill_positions_total w t.positions f held in
      (
        record_fill_accounting now (record t { positions = filled.0 }) f,
        ground (arith, filled.1),
        λ j.
            touched s (size_in (lookup j filled.0)) j
              (fill_positions-size w t.positions filled.0 f held j h filled.1),
      )
]
  where
    untouched : f.is_spot ≡ true → (j : ℕ) → size_of t j ≡ abstract_fill (size_of t) f j
    untouched s j = ground arith

    touched :
        f.is_spot ≡ false
        → (d : Decimal) (j : ℕ)
        → d ≡ (if f.symbol == j then shift (size_of t f.symbol) f else size_of t j)
        → d ≡ abstract_fill (size_of t) f j
    touched s d j e = ground arith

-- For every list of fills with sizes in the i128 range, from any state, the tracker processes
-- them without a panic, and the signed size that it then holds for every symbol, zero for none,
-- is the running sum, in saturating arithmetic, of the perpetual fills of that symbol, buys
-- added and sells subtracted.
pub run_fills-refines :
    (w : Wide) (t : TrackerState) (fs : List (ℤ × Fill))
    → All (λ e. InI128 e.1.size.raw) fs
    → (t' : TrackerState) × (run_fills w t fs ≡ some t')
      × (size_of t' ≡ abstract_run (size_of t) fs)
unfolding run_fills
run_fills-refines w t [] h = (t, refl, refl)
run_fills-refines w t (e ∷ fs) h =
    let step = update_fill_step w e.0 t e.1 h.0 in
    let rest = run_fills-refines w step.0 fs h.1 in
    (
      rest.0,
      ground (arith, step.1, rest.1),
      rest.2 ∙ ap (λ (s : ℕ → Decimal). abstract_run s fs) (fun_ext step.2),
    )
