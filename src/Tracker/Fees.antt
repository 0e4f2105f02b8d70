-- ===== src/Tracker/Fees.antt =====
-- The fee total of crates/trading/src/account/tracker.rs, over local fills and committed ones.
use mathlib.Core.Path.{subst}
use hype_edge.Common.{
  ℕ, ◌+◌, ◌-◌, ◌≤◌, ◌≡◌, refl, sym, ap, ◌∙◌, true, false, Option, none, some, List, [], ◌∷◌, arith,
  ◌==◌, Option-cases, Bool-cases, inl, inr, if◌then◌else◌, ltb, ◌⊎◌, any,
}
use hype_edge.Common.Int.{ℤ, pos, magnitude}
use hype_edge.Common.Maps.{lookup, insert, remove, IsMap, remove-IsMap}
use hype_edge.Decimal.{Decimal, add, sub, abs, min, is_positive}
use hype_edge.Decimal.WideInteger.{Wide}
use hype_edge.Decimal.Machine.{i128_max}
use hype_edge.Tracker.{
  Fill, Position, TrackerState, update_fill, record_fill_accounting, accumulate,
  apply_authoritative_fill, projected, settle, release, consumed,
}
use hype_edge.Tracker.Positions.{fill_positions_total}
use hype_edge.Tracker.Outstanding.{
  amount, owed, outstanding, IsOwed, outstanding-remove, remove-IsOwed, lookup-IsOwed, abs-amount,
  add-amounts, sub-amounts, Owes, insert-Owes,
}

-- The total is the fees of the fills that were committed, `c`, and the provisional ones.
pub record AreFees (t : TrackerState) (c : ℕ) : Type 0 where
  pub distinct : IsMap t.provisional_fill_fees
  pub signed : IsOwed t.provisional_fill_fees
  pub total : t.total_fees.raw ≡ pos (c + outstanding t.provisional_fill_fees)

max_raw : ℕ
max_raw = magnitude i128_max

accumulated :
    (m : List (ℕ × Decimal)) (k : ℕ) (fee : Decimal) (n : ℕ)
    → IsMap m
    → IsOwed m
    → fee.raw ≡ pos n
    → outstanding m + n ≤ magnitude i128_max
    → Owes (accumulate m k fee) (outstanding m + n)
unfolding accumulate
accumulated m k fee n hm ho e b = elim (Option-cases (lookup k m)) [
  | inl l ↦
      subst (λ x. Owes x (outstanding m + n)) (fresh l)
        (insert-Owes k fee m (outstanding m + n) hm ho (ground arith) (ground arith))
  | inr (old, l) ↦
      let signed = lookup-IsOwed k m old ho l in
      let sum =
        add-amounts old fee (amount old) n signed e (ground (arith, outstanding-remove k m hm)) in
      subst (λ x. Owes x (outstanding m + n)) (joined old l sum)
        (insert-Owes k (record { raw = pos (amount old + n) }) m (outstanding m + n) hm ho refl
          (ground arith))
]
  where
    fresh : lookup k m ≡ none → insert k fee m ≡ accumulate m k fee
    fresh l = ground arith

    joined :
        (old : Decimal)
        → lookup k m ≡ some old
        → add old fee ≡ record { raw = pos (amount old + n) }
        → insert k (record { raw = pos (amount old + n) }) m ≡ accumulate m k fee
    joined old l sum = ground arith

-- A local fill adds its fee to the provisional part.
accounting-AreFees :
    (now : ℤ) (t : TrackerState) (f : Fill) (c : ℕ)
    → AreFees t c
    → c + outstanding t.provisional_fill_fees + amount f.fee ≤ magnitude i128_max
    → AreFees (record_fill_accounting now t f) c
      × (outstanding (record_fill_accounting now t f).provisional_fill_fees
          ≡ outstanding t.provisional_fill_fees + amount f.fee)
unfolding record_fill_accounting
accounting-AreFees now t f c h b =
    let fee = abs-amount f.fee (omega arith) in
    let held =
      accumulated t.provisional_fill_fees f.cloid (abs f.fee) (amount f.fee) h.distinct h.signed
        (ap (λ (d : Decimal). d.raw) fee) (omega arith) in
    let sum =
      add-amounts t.total_fees (abs f.fee) (c + outstanding t.provisional_fill_fees) (amount f.fee)
        h.total (ap (λ (d : Decimal). d.raw) fee) b in
    (
      record {
        distinct = held.0;
        signed = held.1;
        total = ap (λ (d : Decimal). d.raw) sum ∙ ap pos (omega (arith, held.2));
      },
      held.2,
    )

-- What a committed fee of `a` releases of what its cloid owes.
released :
    (m : List (ℕ × Decimal)) (k a : ℕ) (held : Option Decimal)
    → lookup k m ≡ held
    → IsMap m
    → IsOwed m
    → outstanding m ≤ magnitude i128_max
    → (u : ℕ) × (consumed held (record { raw = pos a }) ≡ record { raw = pos u })
      × (u ≤ a)
      × (u ≤ outstanding m)
      × Owes (release m k (record { raw = pos u }) held) (outstanding m - u)
unfolding consumed release is_positive min
released m k a none l hm ho b = (0, refl, omega arith, omega arith, (hm, ho, omega arith))
released m k a (some p) l hm ho b = elim (Bool-cases (ltb a (amount p))) [
  | inl less ↦
      let rest : sub p (record { raw = pos a }) ≡ record { raw = pos (amount p - a) } =
        sub-amounts p (record { raw = pos a }) (amount p) a signed refl (ground arith)
          (omega (arith, owes)) in
      (
        a,
        ground (arith, signed),
        omega arith,
        ground (arith, owes),
        subst (λ x. Owes x (outstanding m - a)) (kept less rest)
            (insert-Owes k (record { raw = pos (amount p - a) }) m (outstanding m - a) hm ho refl
              (ground (arith, owes, ap owed l))),
      )
  | inr more ↦
      let rest : sub p (record { raw = pos (amount p) }) ≡ record { raw = pos 0 } =
        sub-amounts p (record { raw = pos (amount p) }) (amount p) (amount p) signed refl
          (omega arith) (omega (arith, owes))
        ∙ ap (λ (n : ℕ). record { raw = pos n }) (omega arith) in
      (
        amount p,
        ground (arith, signed),
        ground arith,
        omega (arith, owes),
        subst (λ x. Owes x (outstanding m - amount p)) (gone rest)
            (remove-IsMap k m hm, remove-IsOwed k m ho, omega (arith, owes)),
      )
]
  where
    signed : p.raw ≡ pos (amount p)
    signed = lookup-IsOwed k m p ho l

    owes : outstanding m ≡ amount p + outstanding (remove k m)
    owes =
        outstanding-remove k m hm ∙ ap (λ (o : Option Decimal). owed o + outstanding (remove k m)) l

    kept :
        ltb a (amount p) ≡ true
        → sub p (record { raw = pos a }) ≡ record { raw = pos (amount p - a) }
        → insert k (record { raw = pos (amount p - a) }) m
          ≡ release m k (record { raw = pos a }) (some p)
    kept less rest = ground arith

    gone :
        sub p (record { raw = pos (amount p) }) ≡ record { raw = pos 0 }
        → remove k m ≡ release m k (record { raw = pos (amount p) }) (some p)
    gone rest = ground arith

-- A committed fill adds its fee to the confirmed part, once.
settle-AreFees :
    (of_millis : ℤ → Option ℤ) (t : TrackerState) (id : ℕ) (f : Fill) (c : ℕ)
    → AreFees t c
    → c + outstanding t.provisional_fill_fees + amount f.fee ≤ magnitude i128_max
    → AreFees (settle of_millis id f t (lookup f.cloid t.provisional_fill_fees)) (c + amount f.fee)
      × (outstanding
            (settle of_millis id f t (lookup f.cloid t.provisional_fill_fees)).provisional_fill_fees
          ≤ outstanding t.provisional_fill_fees)
unfolding settle
settle-AreFees of_millis t id f c h b =
    let m = t.provisional_fill_fees in
    let fee = abs-amount f.fee (omega arith) in
    let r =
      released m f.cloid (amount f.fee) (lookup f.cloid m) refl h.distinct h.signed (omega arith) in
    let used : consumed (lookup f.cloid m) (abs f.fee) ≡ record { raw = pos r.0 } =
      ap (consumed (lookup f.cloid m)) fee ∙ r.1 in
    let owes =
      subst (λ (d : Decimal). Owes (release m f.cloid d (lookup f.cloid m)) (outstanding m - r.0))
        (sym used) r.4 in
    let sum =
      add-amounts t.total_fees (abs f.fee) (c + outstanding m) (amount f.fee) h.total
        (ap (λ (d : Decimal). d.raw) fee) b in
    let left =
      sub-amounts (add t.total_fees (abs f.fee)) (consumed (lookup f.cloid m) (abs f.fee))
        (c + outstanding m + amount f.fee) r.0 (ap (λ (d : Decimal). d.raw) sum)
        (ap (λ (d : Decimal). d.raw) used) (omega (arith, r.2)) b in
    (
      record {
        distinct = owes.0;
        signed = owes.1;
        total = ap (λ (d : Decimal). d.raw) left ∙ ap pos (omega (arith, owes.2, r.2, r.3));
      },
      omega (arith, owes.2),
    )

update_fill-AreFees :
    (w : Wide) (now : ℤ) (t : TrackerState) (f : Fill) (c : ℕ)
    → AreFees t c
    → c + outstanding t.provisional_fill_fees + amount f.fee ≤ magnitude i128_max
    → (t' : TrackerState) × (update_fill w now t f ≡ some t')
      × AreFees t' c
      × (outstanding t'.provisional_fill_fees ≡ outstanding t.provisional_fill_fees + amount f.fee)
unfolding update_fill
update_fill-AreFees w now t f c h b = elim (Bool-cases f.is_spot) [
  | inl s ↦
      let r = accounting-AreFees now t f c h b in
      (record_fill_accounting now t f, ground (arith, s), r.0, r.1)
  | inr s ↦
      let filled = fill_positions_total w t.positions f (lookup f.symbol t.positions) in
      let r = accounting-AreFees now (record t { positions = filled.0 }) f c (moved h) b in
      (
        record_fill_accounting now (record t { positions = filled.0 }) f,
        ground (arith, s, filled.1),
        r.0,
        r.1,
      )
]
  where
    moved : AreFees t c → {m : List (ℕ × Position)} → AreFees (record t { positions = m }) c
    moved h = record { distinct = h.distinct; signed = h.signed; total = h.total }

apply-cases :
    (of_millis : ℤ → Option ℤ) (t : TrackerState) (id : ℕ) (f : Fill) (p : Option Position)
    → (apply_authoritative_fill of_millis t id f p ≡ (t, false))
      ⊎ ((m : List (ℕ × Position)) × (apply_authoritative_fill of_millis t id f p ≡ (
        settle of_millis id f (record t { positions = m }) (lookup f.cloid t.provisional_fill_fees),
        true,
      )))
unfolding apply_authoritative_fill
apply-cases of_millis t id f p = elim (Bool-cases (any (λ i. i == id) t.authoritative_fill_ids)) [
  | inl a ↦ inl (ground (arith, a))
  | inr a ↦ (elim (Option-cases (projected t.positions f.is_spot p)) [
    | inl q ↦ inl (ground (arith, a, q))
    | inr (m, q) ↦ inr (m, ground (arith, a, q))
  ])
]

apply-AreFees :
    (of_millis : ℤ → Option ℤ) (t : TrackerState) (id : ℕ) (f : Fill) (p : Option Position) (c : ℕ)
    → AreFees t c
    → c + outstanding t.provisional_fill_fees + amount f.fee ≤ magnitude i128_max
    → AreFees
        (apply_authoritative_fill of_millis t id f p).0
        (c + (if (apply_authoritative_fill of_millis t id f p).1 then amount f.fee else 0))
      × (c
            + (if (apply_authoritative_fill of_millis t id f p).1 then amount f.fee else 0)
            + outstanding (apply_authoritative_fill of_millis t id f p).0.provisional_fill_fees
          ≤ c + outstanding t.provisional_fill_fees + amount f.fee)
apply-AreFees of_millis t id f p c h b = elim (apply-cases of_millis t id f p) [
  | inl e ↦ simp e (subst (AreFees t) (omega arith) h, omega arith)
  | inr (m, e) ↦
      let r =
        settle-AreFees of_millis (record t { positions = m }) id f c
          (record { distinct = h.distinct; signed = h.signed; total = h.total }) b in
      simp e (r.0, omega (arith, r.1))
]

-- The fills that reach the tracker: its own, with the time, and the committed ones, with the identity
-- and the position that the account reports.
pub data FillEvent : Type 0 where
  local_fill : ℤ → Fill → FillEvent
  committed_fill : ℕ → Fill → Option Position → FillEvent

abbrev pub fee_of : FillEvent → ℕ
fee_of (local_fill now f) = amount f.fee
fee_of (committed_fill id f p) = amount f.fee

-- What the fill adds to the fees that are confirmed.
abbrev pub confirmed_by : (ℤ → Option ℤ) → TrackerState → FillEvent → ℕ
confirmed_by of_millis t (local_fill now f) = 0
confirmed_by of_millis t (committed_fill id f p) =
    if (apply_authoritative_fill of_millis t id f p).1 then amount f.fee else 0

unfoldable pub step : Wide → (ℤ → Option ℤ) → TrackerState → FillEvent → Option TrackerState
step w of_millis t (local_fill now f) = update_fill w now t f
step w of_millis t (committed_fill id f p) = some (apply_authoritative_fill of_millis t id f p).0

-- The fills one after the other: the tracker, and the fees that were confirmed on the way.
unfoldable pub run :
    Wide → (ℤ → Option ℤ) → TrackerState → ℕ → List FillEvent → Option (TrackerState × ℕ)
unfolding step
run w of_millis t c [] = some (t, c)
run w of_millis t c (e ∷ es) = elim (step w of_millis t e) [
  | none ↦ none
  | some t' ↦ run w of_millis t' (c + confirmed_by of_millis t e) es
]

abbrev pub fees_of : List FillEvent → ℕ
fees_of [] = 0
fees_of (e ∷ es) = fee_of e + fees_of es

-- The tracker holds `c` confirmed, and what it owes stays in range with `n` to come.
abbrev InRange : TrackerState → ℕ → ℕ → Type 0
InRange t c n = c + outstanding t.provisional_fill_fees + n ≤ magnitude i128_max

step-AreFees :
    (w : Wide) (of_millis : ℤ → Option ℤ) (t : TrackerState) (c n : ℕ) (e : FillEvent)
    → AreFees t c
    → InRange t c (fee_of e + n)
    → (t' : TrackerState) × (step w of_millis t e ≡ some t')
      × AreFees t' (c + confirmed_by of_millis t e)
      × InRange t' (c + confirmed_by of_millis t e) n
unfolding step
step-AreFees w of_millis t c n (local_fill now f) h b =
    let r = update_fill-AreFees w now t f c h (omega arith) in
    (r.0, r.1, subst (AreFees r.0) (omega arith) r.2, omega (arith, r.3))
step-AreFees w of_millis t c n (committed_fill id f p) h b =
    let r = apply-AreFees of_millis t id f p c h (omega arith) in (_, refl, r.0, omega (arith, r.1))

-- Where the total of the fees is the sum of the fees that committed fills confirmed and of the
-- provisional fees that none has replaced, and the magnitudes of all fees stay in the i128 range
-- together, it still is after every list of local and committed fills, which are processed
-- without a panic; so when every provisional fee is replaced, the total is the sum of the
-- confirmed fees.
pub run-AreFees :
    (w : Wide) (of_millis : ℤ → Option ℤ) (t : TrackerState) (c : ℕ) (es : List FillEvent)
    → AreFees t c
    → InRange t c (fees_of es)
    → (t' : TrackerState) × (c' : ℕ) × (run w of_millis t c es ≡ some (t', c')) × AreFees t' c'
unfolding run
run-AreFees w of_millis t c [] h b = (t, c, refl, h)
run-AreFees w of_millis t c (e ∷ es) h b =
    let s = step-AreFees w of_millis t c (fees_of es) e h b in
    let r = run-AreFees w of_millis s.0 (c + confirmed_by of_millis t e) es s.2 s.3 in
    (r.0, r.1, ground (arith, s.1, r.2), r.3)
