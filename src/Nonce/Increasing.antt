-- ===== src/Nonce/Increasing.antt =====
-- The nonces of the serial worker grow strictly, crates/trading/src/execution/nonce.rs.
use hype_edge.Common.{ℕ, suc, ◌+◌, ◌%◌, ◌^◌, ◌≤◌, ◌<◌, ◌≡◌, refl, List, [], ◌∷◌, arith, length}
use hype_edge.Common.Int.{ℤ}
use hype_edge.Nonce.{ActionRequest, Reply, next, now_ms, answer, perform, work}
use native.Mathlib.Nat.{mod-eq_of_lt}

wrapped : (n : ℕ) → n < 2 ^ 64 → n % 2 ^ 64 ≡ n
wrapped n h = mod-eq_of_lt h

next_bounds :
    (last k : ℕ) (now : ℤ)
    → now_ms now < 2 ^ 63
    → last + suc k < 2 ^ 64
    → 2 ^ 63 + suc k < 2 ^ 64
    → (last < next last now) × (now_ms now ≤ next last now) × (next last now + k < 2 ^ 64)
unfolding next
next_bounds last k now hn hl hk = ground (arith, wrapped (last + 1) (omega arith))

module _ {R : Type 0} where
  -- Each reading of the clock is an i64.
  abbrev pub AreI64 : List (ActionRequest R) → Type 0
  AreI64 [] = Unit
  AreI64 (r ∷ rs) = (now_ms r.now < 2 ^ 63) × AreI64 rs

  -- One reply for each request in order: its nonce is above the one before and not behind the clock,
  -- and its result is what the action gives for this nonce.
  abbrev pub IsServed : ℕ → List (ActionRequest R) → List (Reply R) → Type 0
  IsServed last [] [] = Unit
  IsServed last (r ∷ rs) (a ∷ answers) =
      (last < a.nonce)
      × (now_ms r.now ≤ a.nonce)
      × (a.result ≡ answer r.description (r.run a.nonce))
      × IsServed a.nonce rs answers
  IsServed last _ _ = ⊥

  perform-nonce : (r : ActionRequest R) (n : ℕ) → (perform r n).nonce ≡ n
  unfolding perform
  perform-nonce r n = refl

  perform-result :
      (r : ActionRequest R) (n : ℕ) → (perform r n).result ≡ answer r.description (r.run n)
  unfolding perform
  perform-result r n = refl

  -- Whatever the clock reads, back and forth below 2^63, and while the last nonce and 2^63 are
  -- further below 2^64 than there are requests, the worker answers every request in order: its
  -- nonce is above every earlier one and not behind the clock, and its answer is what the action
  -- gives for that nonce, a timeout as an error.
  pub work-IsServed :
      (last : ℕ) (rs : List (ActionRequest R))
      → AreI64 rs
      → last + length rs < 2 ^ 64
      → 2 ^ 63 + length rs < 2 ^ 64
      → IsServed last rs (work last rs)
  unfolding work
  work-IsServed last [] i h k = tt
  work-IsServed last (r ∷ rs) i h k = rw (perform-nonce r (next last r.now)) (
    bounds.0,
    bounds.1,
    perform-result r (next last r.now),
    work-IsServed (next last r.now) rs i.1 bounds.2 (omega arith),
  )
    where
      bounds :
          (last < next last r.now)
          × (now_ms r.now ≤ next last r.now)
          × (next last r.now + length rs < 2 ^ 64)
      bounds = next_bounds last (length rs) r.now i.0 (omega arith) (omega arith)
