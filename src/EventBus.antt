-- ===== src/EventBus.antt =====
-- The in-process event bus: `EventBus` of crates/infra/src/event_bus.rs and the event types of
-- crates/domain/src/events.rs. Mailboxes live in a store, by identity; the bus holds identities, as
-- it holds weak references, and `live` tells which of them can still be upgraded. An event's payload
-- is a parameter; its type decides its class.
pub mod Types
pub mod Closed
pub mod Sync
mod Tests
use hype_edge.Common.{
  ℕ, zero, suc, ◌+◌, ◌≡◌, Bool, true, false, not, Option, none, some, List, [], ◌∷◌, ◌++◌, ◌==◌,
  keep, any, length, if◌then◌else◌,
}
use hype_edge.Common.Result.{Result, ok, err}
use mathlib.Core.Logic.{ite}
use hype_edge.Mailbox
use hype_edge.Mailbox.{Mailbox}
use Types.{EventType, EventType-discrete, is_lossy_type}

pub record Event (P : Type 0) : Type 0 where
  pub event_type : EventType
  pub payload : P

abbrev pub event_is_lossy : {P : Type 0} → Event P → Bool
event_is_lossy e = is_lossy_type e.event_type

pub record Bus (P : Type 0) : Type 0 where
  pub by_type : EventType → List ℕ
  pub wildcard : List ℕ
  pub queue_maxsize : ℕ
  pub publish_count : ℕ
  pub boxes : ℕ → Mailbox (Event P)
  pub live : ℕ → Bool
  pub next_id : ℕ

-- `EventBusBackpressureError`.
pub record BackpressureError : Type 0 where
  pub error_type : EventType

abbrev pub set_queues : (EventType → List ℕ) → EventType → List ℕ → EventType → List ℕ
set_queues by_type t qs u = ite (EventType-discrete t u) qs (by_type u)

abbrev pub without : ℕ → List ℕ → List ℕ
without i = keep (λ j. not (i == j))

abbrev pub sync_rounds : ℕ
sync_rounds = 100

module _ {P : Type 0} where
  unfoldable pub new : ℕ → Bus P
  unfolding Mailbox.new
  new queue_maxsize = record {
    by_type = λ t. [];
    wildcard = [];
    queue_maxsize = queue_maxsize;
    publish_count = 0;
    boxes = λ i. Mailbox.new 0;
    live = λ i. false;
    next_id = 0;
  }

  abbrev pub set_box : (ℕ → Mailbox (Event P)) → ℕ → Mailbox (Event P) → ℕ → Mailbox (Event P)
  set_box boxes i m j = if i == j then m else boxes j

  -- A fresh mailbox, held by its subscriber.
  unfoldable pub allocate : ℕ → Bus P → Bus P × ℕ
  unfolding Mailbox.new
  allocate capacity b = (
    record b {
      boxes = set_box b.boxes b.next_id (Mailbox.new capacity);
      live = λ i. if b.next_id == i then true else b.live i;
      next_id = suc b.next_id;
    },
    b.next_id,
  )

  push_type : EventType → ℕ → Bus P → Bus P
  push_type t i b = record b { by_type = set_queues b.by_type t (b.by_type t ++ i ∷ []) }

  push_types : List EventType → ℕ → Bus P → Bus P
  unfolding push_type
  push_types [] i b = b
  push_types (t ∷ ts) i b = push_types ts i (push_type t i b)

  unfoldable pub subscribe : EventType → Bus P → Bus P × ℕ
  unfolding allocate push_type
  subscribe t b = let (b', i) = allocate b.queue_maxsize b in (push_type t i b', i)

  unfoldable pub subscribe_many : List EventType → Bus P → Bus P × ℕ
  unfolding allocate push_types
  subscribe_many ts b = let (b', i) = allocate b.queue_maxsize b in (push_types ts i b', i)

  unfoldable pub subscribe_maxsize : EventType → ℕ → Bus P → Bus P × ℕ
  unfolding allocate push_type
  subscribe_maxsize t maxsize b = let (b', i) = allocate maxsize b in (push_type t i b', i)

  unfoldable pub subscribe_all : Bus P → Bus P × ℕ
  unfolding allocate
  subscribe_all b =
      let (b', i) = allocate b.queue_maxsize b in
      (record b' { wildcard = b'.wildcard ++ i ∷ [] }, i)

  unfoldable pub unsubscribe : EventType → ℕ → Bus P → Bus P
  unsubscribe t i b = record b { by_type = set_queues b.by_type t (without i (b.by_type t)) }

  unfoldable pub unsubscribe_many : List EventType → ℕ → Bus P → Bus P
  unfolding unsubscribe
  unsubscribe_many [] i b = b
  unsubscribe_many (t ∷ ts) i b = unsubscribe_many ts i (unsubscribe t i b)

  unfoldable pub unsubscribe_wildcard : ℕ → Bus P → Bus P
  unsubscribe_wildcard i b = record b { wildcard = without i b.wildcard }

  -- The live mailboxes that match a type, in subscription order, typed before wildcard; the dead
  -- ones are pruned.
  unfoldable pub matching_mailboxes : EventType → Bus P → Bus P × List ℕ
  matching_mailboxes t b =
      let typed = keep b.live (b.by_type t) in
      let wild = keep b.live b.wildcard in
      (record b { by_type = set_queues b.by_type t typed; wildcard = wild }, typed ++ wild)

  abbrev with_box : Bus P → ℕ → Mailbox (Event P) → Bus P
  with_box b i m = record b { boxes = set_box b.boxes i m }

  -- The rounds of a synchronous push that are left. `between` is what other threads do to the
  -- mailboxes while the publisher yields.
  unfoldable pub push_sync : (Bus P → Bus P) → ℕ → ℕ → Event P → Bus P → Bus P × Bool
  push_sync between zero i e b = (b, false)
  push_sync between (suc left) i e b =
      let (m, pushed) = Mailbox.try_recv_forced (b.boxes i) e in
      let again = push_sync between left i e (between b) in
      if pushed then (with_box b i m, true) else again

  unfoldable pub deliver_sync :
      (Bus P → Bus P) → List ℕ → Event P → Bus P → Bus P × Result BackpressureError (Unit {0})
  deliver_sync between [] e b = (record b { publish_count = suc b.publish_count }, ok tt)
  deliver_sync between (i ∷ is) e b =
      let lossy = with_box b i (Mailbox.put_lossy event_is_lossy (b.boxes i) e).0 in
      let (b', pushed) = push_sync between sync_rounds i e b in
      let next = deliver_sync between is e (if event_is_lossy e then lossy else b') in
      if event_is_lossy e
      then next
      else if pushed
      then next
      else (b', err (record { error_type = e.event_type }))

  unfoldable pub publish_sync :
      (Bus P → Bus P) → Event P → Bus P → Bus P × Result BackpressureError (Unit {0})
  publish_sync between e b =
      let (b', targets) = matching_mailboxes e.event_type b in deliver_sync between targets e b'

  -- The attempts of an asynchronous `put` until it returns; `none` while it still waits.
  unfoldable pub push_async : (Bus P → Bus P) → ℕ → ℕ → Event P → Bus P → Option (Bus P)
  push_async between zero i e b = none
  push_async between (suc left) i e b =
      let (m, r) = Mailbox.put (b.boxes i) e in
      let again = push_async between left i e (between b) in
      elim r [
        | Mailbox.stored ↦ some (with_box b i m)
        | Mailbox.refused ↦ some b
        | Mailbox.waiting ↦ again
      ]

  unfoldable pub deliver_async : (Bus P → Bus P) → ℕ → List ℕ → Event P → Bus P → Option (Bus P)
  deliver_async between fuel [] e b = some (record b { publish_count = suc b.publish_count })
  deliver_async between fuel (i ∷ is) e b =
      let lossy = with_box b i (Mailbox.put_lossy event_is_lossy (b.boxes i) e).0 in
      let one = if event_is_lossy e then some lossy else push_async between fuel i e b in
      elim one [ none ↦ none | some b' ↦ deliver_async between fuel is e b' ]

  unfoldable pub publish : (Bus P → Bus P) → ℕ → Event P → Bus P → Option (Bus P)
  publish between fuel e b =
      let (b', targets) = matching_mailboxes e.event_type b in
      deliver_async between fuel targets e b'
