-- ===== src/EventBus/Tests.antt =====
-- A bus with one subscriber, and the publishing theorems at it.
use mathlib.Core.List.{Memᴰ}
use hype_edge.Common.{ℕ, ◌≡◌, refl, inl, true, false, [], ◌∷◌, arith}
use hype_edge.Common.Result.{ok, err}
use hype_edge.EventBus.{Event, Bus, publish_sync, deliver_sync}
use hype_edge.EventBus.Types.{order_filled, is_lossy_type}
use hype_edge.EventBus.Closed.{publish_sync_closed}
use hype_edge.EventBus.Sync.{deliver_sync_quiet}

abbrev filled_event : Event ℕ
filled_event = record { event_type = order_filled; payload = 9 }

abbrev open_bus : Bus ℕ
open_bus = record {
  by_type = λ t. 0 ∷ 1 ∷ [];
  wildcard = [];
  queue_maxsize = 4;
  publish_count = 0;
  boxes = λ i. record { items = []; capacity = 4; dropped = 0; closed = false };
  live = λ i. true;
  next_id = 2;
}

abbrev closed_bus : Bus ℕ
closed_bus = record open_bus {
  boxes = λ i. record { items = []; capacity = 4; dropped = 0; closed = true };
}

publish_sync_closed_example :
    (publish_sync (λ b. b) filled_event closed_bus).1 ≡ err (record { error_type = order_filled })
unfolding is_lossy_type
publish_sync_closed_example =
    publish_sync_closed (λ b. b) 0 filled_event closed_bus (λ b h. h) refl (inl (Memᴰ.head refl))
      refl refl

deliver_sync_quiet_example : (deliver_sync (λ b. b) (0 ∷ 1 ∷ []) filled_event open_bus).1 ≡ ok tt
unfolding is_lossy_type
deliver_sync_quiet_example =
    (deliver_sync_quiet filled_event (0 ∷ 1 ∷ []) open_bus refl (((λ e. omega arith), tt), (tt, tt))
      (refl, (refl, tt))).0
