-- ===== src/Operations/Backoff.antt =====
-- The delays of `next_retry`.
use native.Mathlib.Nat.{pow-suc}
use summer_intern.Prelude.{ℕ, zero, suc, ◌+◌, ◌^◌, ◌≤◌, arith}
use summer_intern.Model.{Time, minutes}
use summer_intern.Operations.{next_retry}

pub one-le-pow : (n : ℕ) → 1 ≤ 2 ^ n
one-le-pow zero = omega arith
one-le-pow (suc n) = omega (arith, pow-suc 2 n, one-le-pow n)

-- A retry is at least one minute and at most one hour away, and one more attempt never brings it
-- nearer.
pub next_retry_bounds :
    (now : Time) (attempts : ℕ)
    → (now + minutes 1 ≤ next_retry now attempts)
      × (next_retry now attempts ≤ now + minutes 60)
      × (next_retry now attempts ≤ next_retry now (suc attempts))
unfolding next_retry
next_retry_bounds now n = omega (arith, one-le-pow n, pow-suc 2 n)
