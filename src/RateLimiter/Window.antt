-- ===== src/RateLimiter/Window.antt =====
-- No window of sixty seconds holds more weight than the limit,
-- crates/trading/src/market_data/rate_limiter.rs.
use hype_edge.Common.{
  ℕ, ◌+◌, ◌^◌, ◌%◌, ◌≤◌, ◌<◌, ◌≡◌, refl, ◌∙◌, sym, ap, true, false, List, [], ◌∷◌, ◌++◌, arith,
  keep, if◌then◌else◌, keep-append, inl, inr, ◌⊎◌,
}
use hype_edge.Common.Int.{ℤ}
use hype_edge.RateLimiter.{
  RateLimiter, Stamp, total_weight, is_recent, retain, current_weight, acquire_round, new,
}
use native.Mathlib.Nat.{mod-eq_of_lt}

-- A round of `acquire` by some thread: the weight asked for and the two clock readings.
pub record Round : Type 0 where
  pub weight : ℕ
  pub now : ℕ
  pub pushed_at : ℕ

-- A limiter with all that it has granted.
pub record Trace : Type 0 where
  pub limiter : RateLimiter
  pub granted : List Stamp

unfoldable pub step : Trace → Round → Trace
step t r =
    let (l, ok) = acquire_round r.weight r.now r.pushed_at t.limiter in
    record {
      limiter = l;
      granted =
          if ok
          then t.granted ++ (record { at = r.pushed_at; weight = r.weight }) ∷ []
          else t.granted;
    }

unfoldable pub run : Trace → List Round → Trace
unfolding step
run t [] = t
run t (r ∷ rs) = run (step t r) rs

-- The clock does not go back, from one instant to another.
abbrev pub IsClocked : ℕ → List Round → ℕ → Type 0
IsClocked last [] end = last ≤ end
IsClocked last (r ∷ rs) end = (last ≤ r.now) × (r.now ≤ r.pushed_at) × IsClocked r.pushed_at rs end

abbrev pub FitsU64 : ℕ → List Round → Type 0
FitsU64 limit [] = Unit
FitsU64 limit (r ∷ rs) = (limit + r.weight < 2 ^ 64) × FitsU64 limit rs

keep-keep :
    (now t : ℕ) (ss : List Stamp)
    → now ≤ t
    → keep (is_recent t) (keep (is_recent now) ss) ≡ keep (is_recent t) ss
unfolding is_recent
keep-keep now t [] h = refl
keep-keep now t (s ∷ ss) h = ground (arith, keep-keep now t ss h)

total_weight-keep_le :
    (now t : ℕ) (ss : List Stamp)
    → now ≤ t
    → total_weight (keep (is_recent t) ss) ≤ total_weight (keep (is_recent now) ss)
unfolding is_recent total_weight
total_weight-keep_le now t [] h = omega arith
total_weight-keep_le now t (s ∷ ss) h = ground (arith, total_weight-keep_le now t ss h)

total_weight-append :
    (xs ys : List Stamp) → total_weight (xs ++ ys) ≡ total_weight xs + total_weight ys
unfolding total_weight
total_weight-append [] ys = omega arith
total_weight-append (x ∷ xs) ys = omega (arith, total_weight-append xs ys)

total_weight-one : (t : ℕ) (s : Stamp) → total_weight (keep (is_recent t) (s ∷ [])) ≤ s.weight
unfolding total_weight
total_weight-one t s = ground arith

-- What the limiter keeps is what counts of the grants from an instant on, and it is within the limit.
abbrev pub IsWithin : ℕ → Trace → Type 0
IsWithin last t =
    ((u : ℕ)
      → last ≤ u
      → keep (is_recent u) t.granted ≡ keep (is_recent u) t.limiter.weight_timestamps)
    × (total_weight (keep (is_recent last) t.limiter.weight_timestamps) ≤ t.limiter.ip_weight_limit)

-- A round with the clock and the limit is one of two.
round_cases :
    (weight now pushed_at : ℕ) (l : RateLimiter)
    → l.ip_weight_limit + weight < 2 ^ 64
    → total_weight (keep (is_recent now) l.weight_timestamps) ≤ l.ip_weight_limit
    → ((total_weight (keep (is_recent now) l.weight_timestamps) + weight ≤ l.ip_weight_limit)
        × (acquire_round weight now pushed_at l ≡ (
          record l {
            weight_timestamps =
                keep (is_recent now) l.weight_timestamps
                ++ (record { at = pushed_at; weight = weight }) ∷ [];
          },
          true,
        )))
      ⊎ (acquire_round weight now pushed_at l
          ≡ (record l { weight_timestamps = keep (is_recent now) l.weight_timestamps }, false))
unfolding acquire_round current_weight retain
round_cases weight now pushed_at l f h =
    rw
      (
        whole (total_weight (keep (is_recent now) l.weight_timestamps)) (omega arith),
        whole (total_weight (keep (is_recent now) l.weight_timestamps) + weight) (omega arith),
      )
      (ground arith)
  where
    whole : (n : ℕ) → n < 2 ^ 64 → n % 2 ^ 64 ≡ n
    whole n k = mod-eq_of_lt k

granted-IsWithin :
    (last : ℕ) (t : Trace) (r : Round)
    → IsWithin last t
    → last ≤ r.now
    → r.now ≤ r.pushed_at
    → total_weight (keep (is_recent r.now) t.limiter.weight_timestamps) + r.weight
      ≤ t.limiter.ip_weight_limit
    → IsWithin r.pushed_at (record {
      limiter = record t.limiter {
        weight_timestamps =
            keep (is_recent r.now) t.limiter.weight_timestamps
            ++ (record { at = r.pushed_at; weight = r.weight }) ∷ [];
      };
      granted = t.granted ++ (record { at = r.pushed_at; weight = r.weight }) ∷ [];
    })
granted-IsWithin last t r w h k q = (same, bound)
  where
    s : Stamp
    s = record { at = r.pushed_at; weight = r.weight }

    kept : List Stamp
    kept = keep (is_recent r.now) t.limiter.weight_timestamps

    same :
        (u : ℕ)
        → r.pushed_at ≤ u
        → keep (is_recent u) (t.granted ++ s ∷ []) ≡ keep (is_recent u) (kept ++ s ∷ [])
    same u m =
        keep-append (is_recent u) t.granted (s ∷ [])
        ∙ ap (λ (l : List Stamp). l ++ keep (is_recent u) (s ∷ []))
            (w.0 u (omega arith)
              ∙ sym (keep-keep r.now u t.limiter.weight_timestamps (omega arith)))
        ∙ sym (keep-append (is_recent u) kept (s ∷ []))

    bound : total_weight (keep (is_recent r.pushed_at) (kept ++ s ∷ [])) ≤ t.limiter.ip_weight_limit
    bound =
        rw
          (
            keep-append (is_recent r.pushed_at) kept (s ∷ []),
            total_weight-append (keep (is_recent r.pushed_at) kept)
                (keep (is_recent r.pushed_at) (s ∷ [])),
            keep-keep r.now r.pushed_at t.limiter.weight_timestamps k,
          )
          (omega (
            arith,
            total_weight-keep_le r.now r.pushed_at t.limiter.weight_timestamps k,
            total_weight-one r.pushed_at s,
            q,
          ))

refused-IsWithin :
    (last : ℕ) (t : Trace) (r : Round)
    → IsWithin last t
    → last ≤ r.now
    → r.now ≤ r.pushed_at
    → IsWithin r.pushed_at (record {
      limiter = record t.limiter {
        weight_timestamps = keep (is_recent r.now) t.limiter.weight_timestamps;
      };
      granted = t.granted;
    })
refused-IsWithin last t r w h k = (
  λ u m. w.0 u (omega arith) ∙ sym (keep-keep r.now u t.limiter.weight_timestamps (omega arith)),
  rw (keep-keep r.now r.pushed_at t.limiter.weight_timestamps k)
      (omega (arith, total_weight-keep_le last r.pushed_at t.limiter.weight_timestamps, w.1)),
)

step-IsWithin :
    (last : ℕ) (t : Trace) (r : Round)
    → IsWithin last t
    → last ≤ r.now
    → r.now ≤ r.pushed_at
    → t.limiter.ip_weight_limit + r.weight < 2 ^ 64
    → IsWithin r.pushed_at (step t r)
      × ((step t r).limiter.ip_weight_limit ≡ t.limiter.ip_weight_limit)
unfolding step
step-IsWithin last t r w h k f = elim (round_cases r.weight r.now r.pushed_at t.limiter f room) [
  | inl (q, e) ↦ rw e (granted-IsWithin last t r w h k q, refl)
  | inr e ↦ rw e (refused-IsWithin last t r w h k, refl)
]
  where
    room :
        total_weight (keep (is_recent r.now) t.limiter.weight_timestamps)
        ≤ t.limiter.ip_weight_limit
    room = omega (arith, total_weight-keep_le last r.now t.limiter.weight_timestamps h, w.1)

run_bound :
    (last : ℕ) (t : Trace) (rs : List Round) (end limit : ℕ)
    → IsWithin last t
    → t.limiter.ip_weight_limit ≡ limit
    → IsClocked last rs end
    → FitsU64 limit rs
    → total_weight (keep (is_recent end) (run t rs).granted) ≤ limit
unfolding run
run_bound last t [] end limit w e c f =
    rw (w.0 end c)
      (omega (arith, total_weight-keep_le last end t.limiter.weight_timestamps c, w.1, e))
run_bound last t (r ∷ rs) end limit w e c f =
    run_bound r.pushed_at (step t r) rs end limit next.0 (next.1 ∙ e) c.2 f.1
  where
    next :
        IsWithin r.pushed_at (step t r)
        × ((step t r).limiter.ip_weight_limit ≡ t.limiter.ip_weight_limit)
    next = step-IsWithin last t r w c.0 c.1 (omega (arith, e, f.0))

-- Whatever weights are asked for in rounds of `acquire`, none of which overflows u64 when added
-- to the limit, and whenever the clock does not go back: at every instant after the last round,
-- the weights granted within the sixty seconds before it are together at most the limit.
pub run_within_limit :
    (limit : ℕ) (mark : ℤ) (rs : List Round) (end : ℕ)
    → IsClocked 0 rs end
    → FitsU64 limit rs
    → total_weight
        (keep (is_recent end) (run (record { limiter = new limit mark; granted = [] }) rs).granted)
      ≤ limit
unfolding new total_weight
run_within_limit limit mark rs end c f =
    run_bound 0 (record { limiter = new limit mark; granted = [] }) rs end limit
      (λ u h. refl, omega arith) refl c f
