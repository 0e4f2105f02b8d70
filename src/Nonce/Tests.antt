-- ===== src/Nonce/Tests.antt =====
-- The worker on a clock that goes back, with an action that does not end.
use hype_edge.Common.{ℕ, none, some, List, [], ◌∷◌, ◌≡◌, refl, arith, map}
use hype_edge.Common.Int.{pos, negsuc}
use hype_edge.Common.Result.{ok}
use hype_edge.Nonce.{ActionRequest, Reply, perform, next, now_ms, work}
use hype_edge.Nonce.Increasing.{IsServed, work-IsServed}

abbrev requests : List (ActionRequest ℕ)
requests =
    record { description = "place"; now = pos 1000; run = λ n. some (ok n) }
    ∷ record { description = "cancel"; now = pos 990; run = λ n. none }
    ∷ record { description = "modify"; now = negsuc 0; run = λ n. some (ok 7) }
    ∷ []

nonces_of_requests : map (λ (a : Reply ℕ). a.nonce) (work 0 requests) ≡ 1000 ∷ 1001 ∷ 1002 ∷ []
unfolding work perform next now_ms
nonces_of_requests = refl

work-IsServed_example : IsServed 0 requests (work 0 requests)
unfolding now_ms
work-IsServed_example =
    work-IsServed 0 requests (omega arith, (omega arith, (omega arith, tt))) (omega arith)
      (omega arith)
