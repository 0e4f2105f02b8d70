-- ===== src/Order/Lifecycle.antt =====
-- Single moves of an order.
use hype_edge.Common.{◌≡◌, ◌↔◌, ◌⊎◌, ◌≢◌, true, false, arith, some}
use hype_edge.Common.Result.{ok, err}
use hype_edge.Order.{
  Order, OrderStatus, pending, submitted, submit_unknown, cancelled, is_terminal, can_transition,
  transition,
}

-- The terminal states are exactly those with no way out.
pub is_terminal_iff :
    (s : OrderStatus) → (is_terminal s ≡ true) ↔ ((t : OrderStatus) → can_transition s t ≡ false)
unfolding is_terminal can_transition
is_terminal_iff s = (stays s, stuck s)
  where
    stays :
        (s : OrderStatus) → is_terminal s ≡ true → (t : OrderStatus) → can_transition s t ≡ false
    stays s h t = ground arith

    stuck :
        (s : OrderStatus) → ((t : OrderStatus) → can_transition s t ≡ false) → is_terminal s ≡ true
    stuck s h = ground (arith, h cancelled)

-- The states from which an order may enter pending, submitted and submit_unknown.
pub can_transition_entry :
    (s t : OrderStatus)
    → can_transition s t ≡ true
    → (t ≢ pending) × (t ≡ submitted → s ≡ pending) × (t ≡ submit_unknown → s ≡ submitted)
unfolding can_transition
can_transition_entry s t h = ground arith

-- An allowed move sets the state and nothing else; a refused one is the error that names both states.
pub transition_cases :
    (o : Order) (t : OrderStatus)
    → ((can_transition o.status t ≡ true) × (transition o t ≡ ok (record o { status = t })))
      ⊎ ((can_transition o.status t ≡ false)
          × (transition o t
              ≡ err (record { from_status = o.status; to_status = t; error_cloid = some o.cloid })))
unfolding transition
transition_cases o t = ground arith
