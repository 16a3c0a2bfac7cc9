-- ===== src/Delivery/Executor/Ahead.antt =====
-- How far ahead a retry lies (services/delivery_executor.py).
use substy.Base.{ℕ, ◌+◌, ◌*◌, ◌≡◌, ◌<◌, ◌≤◌, min, Option, none, some, ok, arith, second}
use substy.Delivery.Backoff.Bounds.{compute_backoff_delay_bounds}
use substy.Delivery.Model.{DeliveryAttemptRecord}
use substy.Delivery.Executor.{
  Service, backoff_end, later_retry, next_quiet_hours_retry, quiet_hours_retry,
}

-- The quiet hours put off to a time ahead.
pub next_quiet_hours_retry-ahead :
    (svc : Service) (a : DeliveryAttemptRecord) (now at : ℕ)
    → next_quiet_hours_retry svc.zones now a ≡ ok (some at)
    → now < at
unfolding next_quiet_hours_retry quiet_hours_retry
next_quiet_hours_retry-ahead svc a now at e = ground arith

module _ (svc : Service) where
  open svc use {settings, env, now_utc}

  scale : (x y : ℕ) → x ≤ y → x * second ≤ y * second
  scale x y le = grind arith

  pub backoff_end_bounds :
      env.randint settings.delivery_retry_jitter_seconds ≤ settings.delivery_retry_jitter_seconds
      → (n : ℕ)
      → (now_utc
            + min settings.delivery_base_delay_seconds settings.delivery_max_delay_seconds * second
          ≤ backoff_end svc n)
        × (backoff_end svc n ≤ now_utc + settings.delivery_max_delay_seconds * second)
  backoff_end_bounds draw n =
      let b =
        compute_backoff_delay_bounds env.randint n settings.delivery_base_delay_seconds
          settings.delivery_max_delay_seconds settings.delivery_retry_jitter_seconds draw in
      (omega (arith, scale _ _ b.1), omega (arith, scale _ _ b.0))

  pub later_retry-le : (x : ℕ) (quiet : Option ℕ) → x ≤ later_retry svc x quiet
  later_retry-le x none = omega arith
  later_retry-le x (some y) = ground arith
