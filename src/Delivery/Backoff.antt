-- ===== src/Delivery/Backoff.antt =====
-- core/backoff.py. `randint hi` stands for one draw of `random.randint(0, hi)`.
pub mod Bounds
use substy.Base.{ℕ, ◌+◌, ◌-◌, ◌*◌, ◌^◌, min}

-- The settings are read as natural numbers, so `max(attempt_no - 1, 0)` is a subtraction that
-- stops at 0, and `max(jitter_max_seconds, 0)` is the setting itself.
unfoldable pub compute_backoff_delay : (ℕ → ℕ) → ℕ → ℕ → ℕ → ℕ → ℕ
compute_backoff_delay randint attempt_no base_delay max_delay jitter_max =
    let exp_delay = base_delay * 2 ^ (attempt_no - 1) in
    let jitter = randint jitter_max in min (exp_delay + jitter) max_delay
