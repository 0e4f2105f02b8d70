-- ===== src/Order/Tests.antt =====
-- Runs of the order lifecycle, and its theorems at concrete orders.
use hype_edge.Common.{◌≡◌, refl, List, [], ◌∷◌, none}
use hype_edge.Common.Int.{pos}
use hype_edge.Decimal.{decimal_one}
use hype_edge.Order.{
  Order, OrderStatus, pending, submitted, acknowledged, partial_fill, filled, cancelled, new, buy,
  limit, alo, is_terminal, transition, run,
}
use hype_edge.Order.History.{run-terminal}

abbrev fresh : Order
unfolding new
fresh = new "0xdead" "BTC" buy decimal_one none limit alo (pos 0)

abbrev chain : List OrderStatus
chain = submitted ∷ acknowledged ∷ partial_fill ∷ pending ∷ filled ∷ cancelled ∷ []

chain_fills : (run fresh chain).status ≡ filled
unfolding run transition new
chain_fills = refl

run-terminal_example : run (run fresh chain) (cancelled ∷ []) ≡ run fresh chain
unfolding run transition new is_terminal
run-terminal_example = run-terminal (run fresh chain) (cancelled ∷ []) refl
