-- ===== src/Common/Result.antt =====
-- Fallible code: the value or the error of a Rust `Result`.
use mathlib.Core.Path.{◌≡◌, refl}
use native.Mathlib.Omega.{arith}
use mathlib.Core.Bool.{Bool, true, false}

pub data Result {ℓ κ} (E : Type ℓ) (A : Type κ) : Type (ℓ ⊔ κ) where
  ok : A → Result E A
  err : E → Result E A

infixl 5 ◌>>=◌ ◌>>◌
abbrev pub ◌>>=◌ {ℓ κ μ} :
    {E : Type ℓ} {A : Type κ} {B : Type μ} → Result E A → (A → Result E B) → Result E B
ok a >>= f = f a
err e >>= f = err e

abbrev pub ◌>>◌ {ℓ κ} : {E : Type ℓ} {B : Type κ} → Result E (Unit {0}) → Result E B → Result E B
m >> k = m >>= λ _. k

-- An early `return Err(e)` unless the test passes.
abbrev pub guard {ℓ} : {E : Type ℓ} → Bool → E → Result E (Unit {0})
guard true e = ok tt
guard false e = err e

module _ {ℓ κ μ} {E : Type ℓ} {A : Type κ} {B : Type μ} (next : A → Result E B) {result : B} where
  -- A sequence that succeeds has a first step that does, and goes on from its value.
  pub bind_ok :
      (first : Result E A)
      → (first >>= next) ≡ ok result
      → (a : A) × (first ≡ ok a) × (next a ≡ ok result)
  bind_ok (ok a) done = (a, refl, done)
  bind_ok (err e) done = cc

  -- A sequence goes on from the value of its first step.
  pub then_ok :
      (first : Result E A) (a : A)
      → first ≡ ok a
      → next a ≡ ok result
      → (first >>= next) ≡ ok result
  then_ok first a h k = rw h k

-- A sequence avoids an error that its first step and what follows avoid.
pub bind_avoids {ℓ κ μ} :
    {E : Type ℓ} {A : Type κ} {B : Type μ} (next : A → Result E B) (first : Result E A) (e : E)
    → (first ≡ err e → ⊥)
    → ((a : A) → next a ≡ err e → ⊥)
    → (first >>= next) ≡ err e
    → ⊥
bind_avoids next (ok a) e now later h = later a h
bind_avoids next (err d) e now later h = now (ground (arith, h))
