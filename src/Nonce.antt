-- ===== src/Nonce.antt =====
-- The nonces of crates/trading/src/execution/nonce.rs: the generator and the serial worker. The clock is
-- a sequence of readings, one for each nonce, in milliseconds and possibly going back. What an action
-- does with its nonce is a function of the request, `none` if it has not ended within the time limit.
pub mod Increasing
mod Tests
use Prim.Native.String.{String}
use hype_edge.Common.{ℕ, suc, ◌+◌, ◌%◌, ◌^◌, Option, none, some, List, [], ◌∷◌, leb, if◌then◌else◌}
use hype_edge.Common.Int.{ℤ, pos, negsuc}
use hype_edge.Common.Result.{Result, ok, err}

abbrev pub max : ℕ → ℕ → ℕ
max a b = if leb a b then b else a

-- A reading as u64, a time before the epoch as 0.
unfoldable pub now_ms : ℤ → ℕ
now_ms (pos n) = n
now_ms (negsuc n) = 0

-- The nonce after `last`, a 64-bit number.
unfoldable pub next : ℕ → ℤ → ℕ
unfolding now_ms
next last now = max (now_ms now) ((last + 1) % 2 ^ 64)

pub data ActionError : Type 0 where
  timed_out : String → ActionError
  failed : String → ActionError

-- A request with the clock reading of its turn.
pub record ActionRequest (R : Type 0) : Type 0 where
  pub description : String
  pub now : ℤ
  pub run : ℕ → Option (Result ActionError R)

pub record Reply (R : Type 0) : Type 0 where
  pub nonce : ℕ
  pub result : Result ActionError R

module _ {R : Type 0} where
  unfoldable pub answer : String → Option (Result ActionError R) → Result ActionError R
  answer description (some result) = result
  answer description none = err (timed_out description)

  unfoldable pub perform : ActionRequest R → ℕ → Reply R
  unfolding answer
  perform r nonce = record { nonce = nonce; result = answer r.description (r.run nonce) }

  -- The worker on the requests in the order of the queue, and the last nonce that it leaves.
  unfoldable pub work : ℕ → List (ActionRequest R) → List (Reply R)
  unfolding next perform
  work last [] = []
  work last (r ∷ rs) = perform r (next last r.now) ∷ work (next last r.now) rs
