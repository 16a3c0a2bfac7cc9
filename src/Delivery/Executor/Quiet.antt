-- ===== src/Delivery/Executor/Quiet.antt =====
-- The executor and quiet hours (services/delivery_executor.py).
use substy.Base.{
  ℕ, ◌≡◌, inl, inr, ◌<◌, ◌%◌, true, false, Option, none, some, find_row, ok, arith, or_default, day,
  Bool-cases,
}
use substy.Delivery.QuietHours.{
  Zone, is_in_quiet_hours, quiet_end, next_allowed_in, compute_next_allowed_time, resolve_timezone,
}
use substy.Delivery.QuietHours.NextAllowed.{quiet_end_allowed}
use substy.Delivery.Model.{DeliveryAttemptRecord, Store}
use substy.Delivery.Attempts.{same_id, get_for_update, mark_delayed}
use substy.Delivery.Executor.{
  Service, execute_send, later_retry, next_quiet_hours_retry, delay_for_quiet_hours,
}
use substy.Delivery.Effects.{enqueue_job}

-- The attempt has quiet hours, in this zone.
pub record HasQuietHours (svc : Service) (a : DeliveryAttemptRecord) (tz : Zone) (start end : ℕ)
    : Type 0 where
  pub starts : a.quiet_hours_start ≡ some start
  pub ends : a.quiet_hours_end ≡ some end
  pub zone : svc.zones.zone_info (or_default (some a.timezone) "UTC") ≡ ok tz

pub next_quiet_hours_retry_lem :
    (svc : Service) (a : DeliveryAttemptRecord) (tz : Zone) (now start end : ℕ)
    → HasQuietHours svc a tz start end
    → is_in_quiet_hours (tz.wall now % day) start end ≡ true
    → now < tz.instant (quiet_end (tz.wall now) start end)
    → next_quiet_hours_retry svc.zones now a
      ≡ ok (some (tz.instant (quiet_end (tz.wall now) start end)))
unfolding next_quiet_hours_retry compute_next_allowed_time resolve_timezone next_allowed_in
next_quiet_hours_retry_lem svc a tz now start end q quiet ahead = ground arith

next_quiet_hours_retry_free :
    (svc : Service) (a : DeliveryAttemptRecord) (tz : Zone) (now start end : ℕ)
    → HasQuietHours svc a tz start end
    → is_in_quiet_hours (tz.wall now % day) start end ≡ false
    → next_quiet_hours_retry svc.zones now a ≡ ok none
unfolding next_quiet_hours_retry compute_next_allowed_time resolve_timezone next_allowed_in
next_quiet_hours_retry_free svc a tz now start end q free = ground arith

-- If the attempt is found and it is now quiet in the zone that its timezone names, nothing is
-- handed to a provider, whatever else the call does, provided that the zone gives the end of the
-- quiet hours an instant after now.
pub execute_send-quiet :
    (svc : Service) (attempt_id : ℕ) (s : Store) (a : DeliveryAttemptRecord) (tz : Zone)
    (start end : ℕ)
    → find_row (same_id attempt_id) s.db.delivery_attempts ≡ some a
    → HasQuietHours svc a tz start end
    → is_in_quiet_hours (tz.wall svc.now_utc % day) start end ≡ true
    → svc.now_utc < tz.instant (quiet_end (tz.wall svc.now_utc) start end)
    → (execute_send svc attempt_id s).1.world.messages ≡ s.world.messages
unfolding execute_send get_for_update delay_for_quiet_hours mark_delayed enqueue_job
execute_send-quiet svc attempt_id s a tz start end found q quiet ahead =
    ground (arith, next_quiet_hours_retry_lem svc a tz svc.now_utc start end q)

-- A retry is not put into quiet hours: if the end of the quiet hours that the backoff ends in, if
-- it does, has an instant after the backoff, and the zone's clock shows that end at that instant,
-- then the time chosen is not quiet.
pub later_retry-quiet :
    (svc : Service) (a : DeliveryAttemptRecord) (tz : Zone) (start end backoff_retry_at : ℕ)
    (quiet : Option ℕ)
    → start < day
    → end < day
    → HasQuietHours svc a tz start end
    → (is_in_quiet_hours (tz.wall backoff_retry_at % day) start end ≡ true
        → backoff_retry_at < tz.instant (quiet_end (tz.wall backoff_retry_at) start end))
    → tz.wall (tz.instant (quiet_end (tz.wall backoff_retry_at) start end))
      ≡ quiet_end (tz.wall backoff_retry_at) start end
    → next_quiet_hours_retry svc.zones backoff_retry_at a ≡ ok quiet
    → is_in_quiet_hours (tz.wall (later_retry svc backoff_retry_at quiet) % day) start end ≡ false
later_retry-quiet svc a tz start end x quiet hs he q ahead clock e =
    elim (Bool-cases (is_in_quiet_hours (tz.wall x % day) start end)) [
      | inl is_quiet ↦
          let chosen : quiet ≡ some (tz.instant (quiet_end (tz.wall x) start end)) =
            cc (e, next_quiet_hours_retry_lem svc a tz x start end q is_quiet (ahead is_quiet)) in
          rw chosen (
            ground (
              arith,
              ahead is_quiet,
              clock,
              quiet_end_allowed (tz.wall x) start end hs he is_quiet,
            ))
      | inr free ↦
          let chosen : quiet ≡ none =
            cc (e, next_quiet_hours_retry_free svc a tz x start end q free) in
          rw chosen free
    ]
