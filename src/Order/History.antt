-- ===== src/Order/History.antt =====
-- Histories of moves.
use mathlib.Core.List.{Memᴰ}
use hype_edge.Common.{
  ◌≡◌, refl, ap, ◌∙◌, ◌⊎◌, inl, inr, Bool, true, false, List, [], ◌∷◌, ◌++◌, arith,
}
use hype_edge.Order.{
  Order, OrderStatus, pending, submitted, cancelled, rejected, is_terminal, transition, after, run,
}

-- An order in a terminal state is left unchanged by every list of requested moves.
pub run-terminal : (o : Order) (ss : List OrderStatus) → is_terminal o.status ≡ true → run o ss ≡ o
unfolding run
run-terminal o [] h = refl
run-terminal o (s ∷ ss) h = rw (refuses o s h) (run-terminal o ss h)
  where
    refuses :
        (o : Order) (s : OrderStatus) → is_terminal o.status ≡ true → after o (transition o s) ≡ o
    refuses o s h = unfold transition is_terminal in ground arith

step_identity :
    (o : Order) (s : OrderStatus)
    → after o (transition o s) ≡ record o { status = (after o (transition o s)).status }
unfolding transition
step_identity o s = ground arith

-- Only the status moves.
pub run_identity :
    (o : Order) (ss : List OrderStatus) → run o ss ≡ record o { status = (run o ss).status }
unfolding run
run_identity o [] = refl
run_identity o (s ∷ ss) =
    let o' = after o (transition o s) in
    run_identity o' ss
    ∙ ap (λ (p : Order). record p { status = (run o' ss).status }) (step_identity o s)

-- Whatever moves were requested before, a request to cancel leaves the order in a terminal
-- state.
pub run-cancelled :
    (o : Order) (ss : List OrderStatus) → is_terminal (run o (ss ++ cancelled ∷ [])).status ≡ true
unfolding run
run-cancelled o [] = closes o
  where
    closes : (o : Order) → is_terminal (after o (transition o cancelled)).status ≡ true
    closes o = unfold transition is_terminal in ground arith
run-cancelled o (s ∷ ss) = run-cancelled (after o (transition o s)) ss

-- Not yet sent: the states that an order can be in before it was submitted.
abbrev unsent : OrderStatus → Bool
unsent pending = true
unsent rejected = true
unsent cancelled = true
unsent _ = false

step_unsent :
    (o : Order) (s : OrderStatus)
    → unsent o.status ≡ true
    → (submitted ≡ s) ⊎ (unsent (after o (transition o s)).status ≡ true)
unfolding transition
step_unsent o s h = ground arith

-- If an order that is pending, rejected or cancelled is brought by a list of requested moves
-- into any other state, then a move to submitted is among the requests.
pub run_submitted :
    (o : Order) (ss : List OrderStatus)
    → unsent o.status ≡ true
    → unsent (run o ss).status ≡ false
    → Memᴰ submitted ss
unfolding run
run_submitted o [] h l = cc
run_submitted o (s ∷ ss) h l = elim (step_unsent o s h) [
  | inl e ↦ Memᴰ.head e
  | inr still ↦ Memᴰ.tail (run_submitted (after o (transition o s)) ss still l)
]
