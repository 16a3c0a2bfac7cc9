-- ===== src/Delivery/QuietHours/NextAllowed.antt =====
-- The end of the quiet hours (core/quiet_hours.py, `compute_next_allowed_time`).
use substy.Base.{ℕ, ◌+◌, ◌%◌, ◌<◌, ◌≤◌, ◌≡◌, true, false, arith, day}
use substy.Delivery.QuietHours.{is_in_quiet_hours, quiet_end}

-- At a wall time within quiet hours, whose ends are times of day, the end lies ahead, at most a
-- day, and is itself not quiet.
pub quiet_end_allowed :
    (now start end : ℕ)
    → start < day
    → end < day
    → is_in_quiet_hours (now % day) start end ≡ true
    → (now < quiet_end now start end)
      × (quiet_end now start end ≤ now + day)
      × (is_in_quiet_hours (quiet_end now start end % day) start end ≡ false)
unfolding is_in_quiet_hours quiet_end
quiet_end_allowed now start end hs he q = ground arith

-- Every wall time from a quiet one up to the end of the quiet hours, whose ends are times of day,
-- is quiet, so that the end is the first allowed one.
pub quiet_until_end :
    (now start end w : ℕ)
    → start < day
    → end < day
    → is_in_quiet_hours (now % day) start end ≡ true
    → now ≤ w
    → w < quiet_end now start end
    → is_in_quiet_hours (w % day) start end ≡ true
unfolding is_in_quiet_hours quiet_end
quiet_until_end now start end w hs he q lo hi = ground arith
