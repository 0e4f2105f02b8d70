-- ===== src/Mailbox/Steps.antt =====
-- The interleavings of a mailbox's users: what each step is offered, takes in and gives out.
use hype_edge.Common.{Bool, true, false, Option, none, some, List, [], ◌∷◌, ◌++◌, if◌then◌else◌}
use hype_edge.Mailbox.{
  Mailbox, Put, stored, refused, waiting, put, put_lossy, try_recv, try_recv_forced, close,
}

-- `offer` is an asynchronous publisher's attempt, `force` a synchronous one's; both choose the
-- operation by the item's class, as `EventBus::publish` and `publish_sync` do. `receive` is a
-- consumer's `recv` or `try_recv`.
pub data Step {ℓ} (A : Type ℓ) : Type ℓ where
  offer force : A → Step A
  receive shut : Step A

-- A mailbox with the items that it took in and gave out so far, and how many lossy items were
-- offered while it was open.
pub record Trace {ℓ} (A : Type ℓ) : Type ℓ where
  pub box : Mailbox A
  pub accepted : List A
  pub received : List A

module _ {ℓ} {A : Type ℓ} where
  abbrev pub given : Option A → List A
  given none = []
  given (some a) = a ∷ []

  abbrev pub taken : A → Put → List A
  taken a stored = a ∷ []
  taken a refused = []
  taken a waiting = []

  abbrev pub taken_forced : A → Bool → List A
  taken_forced a true = a ∷ []
  taken_forced a false = []

  unfoldable pub offer_reliable : Trace A → A → Trace A
  offer_reliable t a =
      let (m, r) = put t.box a in record t { box = m; accepted = t.accepted ++ taken a r }

  unfoldable pub force_reliable : Trace A → A → Trace A
  force_reliable t a =
      let (m, r) = try_recv_forced t.box a in
      record t { box = m; accepted = t.accepted ++ taken_forced a r }

  unfoldable pub offer_lossy : (A → Bool) → Trace A → A → Trace A
  offer_lossy is_lossy t a = record t { box = (put_lossy is_lossy t.box a).0 }

  unfoldable pub take_one : Trace A → Trace A
  take_one t = let (m, r) = try_recv t.box in record t { box = m; received = t.received ++ given r }

  -- `accepted` records the reliable items only: those that the mailbox may not lose.
  unfoldable pub step : (A → Bool) → Trace A → Step A → Trace A
  unfolding offer_reliable force_reliable offer_lossy take_one
  step is_lossy t (offer a) = if is_lossy a then offer_lossy is_lossy t a else offer_reliable t a
  step is_lossy t (force a) = if is_lossy a then offer_lossy is_lossy t a else force_reliable t a
  step is_lossy t receive = take_one t
  step is_lossy t shut = record t { box = close t.box }

  unfoldable pub run : (A → Bool) → Trace A → List (Step A) → Trace A
  run is_lossy t [] = t
  run is_lossy t (s ∷ ss) = run is_lossy (step is_lossy t s) ss
