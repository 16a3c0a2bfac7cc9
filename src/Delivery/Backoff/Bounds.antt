-- ===== src/Delivery/Backoff/Bounds.antt =====
-- How long a retry waits (core/backoff.py).
use native.Mathlib.Nat.{pow-suc}
use substy.Base.{ℕ, zero, suc, ◌+◌, ◌-◌, ◌*◌, ◌^◌, ◌≤◌, min, ◌≡◌, arith}
use substy.Delivery.Backoff.{compute_backoff_delay}

pow_pos : (n : ℕ) → 1 ≤ 2 ^ n
pow_pos zero = omega arith
pow_pos (suc n) = rw pow-suc (omega (arith, pow_pos n))

pred_suc : (n : ℕ) → suc n - 1 ≡ n
pred_suc n = omega arith

pow_step : (n : ℕ) → 2 ^ (n - 1) ≤ 2 ^ (suc n - 1)
pow_step zero = omega arith
pow_step (suc n) = rw (pred_suc n, pred_suc (suc n), pow-suc) (omega (arith, pow_pos n))

scale_mono : (base a b j : ℕ) → a ≤ b → base * a + j ≤ base * b + j
scale_mono base a b j h = grind arith

-- With a draw within the jitter, the delay is at most the maximum, at least the smaller of the
-- base delay and the maximum, and at most the exponential delay and the largest jitter.
pub compute_backoff_delay_bounds :
    (randint : ℕ → ℕ) (n base top jitter : ℕ)
    → randint jitter ≤ jitter
    → (compute_backoff_delay randint n base top jitter ≤ top)
      × (min base top ≤ compute_backoff_delay randint n base top jitter)
      × (compute_backoff_delay randint n base top jitter ≤ base * 2 ^ (n - 1) + jitter)
unfolding compute_backoff_delay
compute_backoff_delay_bounds randint n base top jitter h = grind (arith, pow_pos (n - 1))

-- With the same draw, the next attempt waits at least as long.
pub compute_backoff_delay_mono :
    (randint : ℕ → ℕ) (n base top jitter : ℕ)
    → compute_backoff_delay randint n base top jitter
      ≤ compute_backoff_delay randint (suc n) base top jitter
unfolding compute_backoff_delay
compute_backoff_delay_mono randint n base top jitter =
    omega (arith, scale_mono base _ _ (randint jitter) (pow_step n))
