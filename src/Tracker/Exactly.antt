-- ===== src/Tracker/Exactly.antt =====
-- Exactly-once application of committed fills, crates/trading/src/account/tracker.rs.
use hype_edge.Common.{
  ℕ, ◌≡◌, Bool, true, false, Option, none, some, List, [], ◌∷◌, arith, ◌==◌, any, Option-cases, inl,
  inr, ==_refl,
}
use hype_edge.Common.Int.{ℤ}
use hype_edge.Decimal.{Decimal}
use hype_edge.Decimal.WideInteger.{Wide}
use hype_edge.Tracker.{
  Fill, Position, SpotBalance, AccountState, TrackerState, update_fill, record_fill_accounting,
  apply_authoritative_fill, settle, update_account_state, update_position_from_exchange,
  remove_position, update_spot_balances, apply_funding,
}

-- The calls that change the tracker, each with the time or the identity it is given.
pub data Event : Type 0 where
  local_fill : ℤ → Fill → Event
  committed_fill : ℕ → Fill → Option Position → Event
  account_polled : ℤ → AccountState → Event
  position_polled : ℕ → Position → Event
  position_dropped : ℕ → Event
  balances_polled : List SpotBalance → ℤ → Event
  funding_paid : Decimal → Event

unfoldable pub step : Wide → (ℤ → Option ℤ) → TrackerState → Event → Option TrackerState
unfolding update_account_state update_position_from_exchange remove_position update_spot_balances
    apply_funding
step w of_millis t (local_fill now f) = update_fill w now t f
step w of_millis t (committed_fill id f p) = some (apply_authoritative_fill of_millis t id f p).0
step w of_millis t (account_polled now s) = some (update_account_state now t s)
step w of_millis t (position_polled symbol p) = some (update_position_from_exchange t symbol p)
step w of_millis t (position_dropped symbol) = some (remove_position t symbol)
step w of_millis t (balances_polled bs at) = some (update_spot_balances t bs at)
step w of_millis t (funding_paid amount) = some (apply_funding t amount)

unfoldable pub run : Wide → (ℤ → Option ℤ) → TrackerState → List Event → Option TrackerState
run w of_millis t [] = some t
run w of_millis t (e ∷ es) = elim (step w of_millis t e) [
  | none ↦ none
  | some t' ↦ run w of_millis t' es
]

abbrev pub applied : ℕ → TrackerState → Bool
applied id t = any (λ i. i == id) t.authoritative_fill_ids

fills-keep :
    (w : Wide) (now : ℤ) (t t' : TrackerState) (f : Fill)
    → update_fill w now t f ≡ some t'
    → t'.authoritative_fill_ids ≡ t.authoritative_fill_ids
unfolding update_fill record_fill_accounting
fills-keep w now t t' f h = ground arith

commits-grow :
    (of_millis : ℤ → Option ℤ) (t : TrackerState) (id j : ℕ) (f : Fill) (p : Option Position)
    → applied j t ≡ true
    → applied j (apply_authoritative_fill of_millis t id f p).0 ≡ true
unfolding apply_authoritative_fill settle
commits-grow of_millis t id j f p h = ground arith

step-grows :
    (w : Wide) (of_millis : ℤ → Option ℤ) (t t' : TrackerState) (e : Event) (j : ℕ)
    → applied j t ≡ true
    → step w of_millis t e ≡ some t'
    → applied j t' ≡ true
unfolding step
step-grows w of_millis t t' (local_fill now f) j h k = ground (arith, fills-keep w now t t' f k)
step-grows w of_millis t t' (committed_fill id f p) j h k =
    ground (arith, commits-grow of_millis t id j f p h)
step-grows w of_millis t t' e j h k = ground arith

run-grows :
    (w : Wide) (of_millis : ℤ → Option ℤ) (t t' : TrackerState) (es : List Event) (j : ℕ)
    → applied j t ≡ true
    → run w of_millis t es ≡ some t'
    → applied j t' ≡ true
unfolding run
run-grows w of_millis t t' [] j h k = ground arith
run-grows w of_millis t t' (e ∷ es) j h k = elim (Option-cases (step w of_millis t e)) [
  | inl s ↦ ground arith
  | inr (u, s) ↦ run-grows w of_millis u t' es j (step-grows w of_millis t u e j h s) (ground arith)
]

applies-record :
    (of_millis : ℤ → Option ℤ) (t t' : TrackerState) (id : ℕ) (f : Fill) (p : Option Position)
    → apply_authoritative_fill of_millis t id f p ≡ (t', true)
    → applied id t' ≡ true
unfolding apply_authoritative_fill settle
applies-record of_millis t t' id f p h = ground (arith, ==_refl id)

again :
    (of_millis : ℤ → Option ℤ) (t : TrackerState) (id : ℕ) (f : Fill) (p : Option Position)
    → applied id t ≡ true
    → apply_authoritative_fill of_millis t id f p ≡ (t, false)
unfolding apply_authoritative_fill
again of_millis t id f p h = ground arith

-- After a committed fill has been applied, and after whatever other calls change the tracker, a
-- committed fill with the same identity, of whatever content, is refused and changes nothing.
pub applied_once :
    (w : Wide) (of_millis : ℤ → Option ℤ) (t t' t'' : TrackerState) (id : ℕ) (f g : Fill)
    (p q : Option Position) (es : List Event)
    → apply_authoritative_fill of_millis t id f p ≡ (t', true)
    → run w of_millis t' es ≡ some t''
    → apply_authoritative_fill of_millis t'' id g q ≡ (t'', false)
applied_once w of_millis t t' t'' id f g p q es h k =
    again of_millis t'' id g q
      (run-grows w of_millis t' t'' es id (applies-record of_millis t t' id f p h) k)
