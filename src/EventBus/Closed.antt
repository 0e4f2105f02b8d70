-- ===== src/EventBus/Closed.antt =====
-- What a closed mailbox does to its publishers.
use mathlib.Core.List.{Memᴰ}
use hype_edge.Common.{
  ℕ, zero, suc, ◌≡◌, refl, ap, ◌⊎◌, inl, inr, true, false, some, List, [], ◌∷◌, arith, keep, ==_iff,
}
use hype_edge.Common.Members.{Memᴰ-append_left, Memᴰ-append_right, Memᴰ-keep}
use hype_edge.Common.Result.{err}
use hype_edge.Mailbox.{put, try_recv_forced}
use hype_edge.EventBus.{
  Event, Bus, event_is_lossy, push_sync, deliver_sync, publish_sync, push_async, matching_mailboxes,
}

module _ {P : Type 0} (between : Bus P → Bus P) (i : ℕ) where
  abbrev IsClosed : Bus P → Type 0
  IsClosed b = (b.boxes i).closed ≡ true

  -- Nobody reopens the mailbox: the code has no operation that does.
  abbrev pub KeepsClosed : Type 0
  KeepsClosed = (b : Bus P) → IsClosed b → IsClosed (between b)

  push_sync-IsClosed :
      (k : KeepsClosed) (left j : ℕ) (e : Event P) (b : Bus P)
      → IsClosed b
      → IsClosed (push_sync between left j e b).0
  unfolding push_sync try_recv_forced
  push_sync-IsClosed k zero j e b h = h
  push_sync-IsClosed k (suc left) j e b h =
      ground (arith, ==_iff j i, push_sync-IsClosed k left j e (between b) (k b h))

  push_sync_closed :
      (k : KeepsClosed) (left : ℕ) (e : Event P) (b : Bus P)
      → IsClosed b
      → (push_sync between left i e b).1 ≡ false
  unfolding push_sync try_recv_forced
  push_sync_closed k zero e b h = refl
  push_sync_closed k (suc left) e b h =
      ground (arith, push_sync_closed k left e (between b) (k b h))

  deliver_sync_closed :
      (k : KeepsClosed) (is : List ℕ) (e : Event P) (b : Bus P)
      → event_is_lossy e ≡ false
      → Memᴰ i is
      → IsClosed b
      → (deliver_sync between is e b).1 ≡ err (record { error_type = e.event_type })
  unfolding deliver_sync
  deliver_sync_closed k [] e b rel m h = elim m [ ]
  deliver_sync_closed k (j ∷ is) e b rel (Memᴰ.head q) h =
      ground
        (arith, ap (λ (n : ℕ). (push_sync between 100 n e b).1) q, push_sync_closed k 100 e b h)
  deliver_sync_closed k (j ∷ is) e b rel (Memᴰ.tail m) h = ground (
    arith,
    deliver_sync_closed k is e (push_sync between 100 j e b).0 rel m
        (push_sync-IsClosed k 100 j e b h),
  )

  mem-targets :
      (e : Event P) (b : Bus P)
      → Memᴰ i (b.by_type e.event_type) ⊎ Memᴰ i b.wildcard
      → b.live i ≡ true
      → Memᴰ i (matching_mailboxes e.event_type b).1
  unfolding matching_mailboxes
  mem-targets e b (inl m) l =
      Memᴰ-append_left (keep b.live b.wildcard) (Memᴰ-keep b.live (b.by_type e.event_type) m l)
  mem-targets e b (inr m) l =
      Memᴰ-append_right (keep b.live (b.by_type e.event_type)) (keep b.live b.wildcard)
        (Memᴰ-keep b.live b.wildcard m l)

  -- If a mailbox that is subscribed to the event's type or to all events is closed while its
  -- handle is still alive, and no other thread reopens it, then publishing a reliable event
  -- synchronously fails with the backpressure error, whatever the other threads do.
  pub publish_sync_closed :
      (e : Event P) (b : Bus P)
      → KeepsClosed
      → event_is_lossy e ≡ false
      → Memᴰ i (b.by_type e.event_type) ⊎ Memᴰ i b.wildcard
      → b.live i ≡ true
      → (b.boxes i).closed ≡ true
      → (publish_sync between e b).1 ≡ err (record { error_type = e.event_type })
  unfolding publish_sync
  publish_sync_closed e b k rel m l h =
      deliver_sync_closed k (matching_mailboxes e.event_type b).1 e
        (matching_mailboxes e.event_type b).0 rel (mem-targets e b m l)
        (unfold matching_mailboxes in h)

  -- An asynchronous push skips a closed mailbox.
  pub push_async_closed :
      (fuel : ℕ) (e : Event P) (b : Bus P)
      → (b.boxes i).closed ≡ true
      → push_async between (suc fuel) i e b ≡ some b
  unfolding push_async put
  push_async_closed fuel e b h = ground arith
