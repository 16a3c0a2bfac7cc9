-- ===== src/Delivery/QuietHours/Intervals.antt =====
-- Quiet hours as an interval on the clock face (core/quiet_hours.py, `is_in_quiet_hours`).
use substy.Base.{ℕ, ◌+◌, ◌-◌, ◌%◌, ◌<◌, ◌≡◌, ◌≢◌, ◌↔◌, true, not, arith, day}
use substy.Delivery.QuietHours.{is_in_quiet_hours}

-- For times of day, `is_in_quiet_hours` holds exactly when the time lies on the arc that runs
-- clockwise from `start` to `end`, `start` included and `end` not, also across midnight; with
-- `start` equal to `end` the arc is empty.
pub is_in_quiet_hours_iff :
    (t start end : ℕ)
    → t < day
    → start < day
    → end < day
    → (is_in_quiet_hours t start end ≡ true) ↔ ((t + day - start) % day < (end + day - start) % day)
unfolding is_in_quiet_hours
is_in_quiet_hours_iff t start end ht hs he = ground arith

-- Swapping two different ends gives the complement: at every time exactly one of the two is quiet.
pub is_in_quiet_hours_swap :
    (t start end : ℕ)
    → start ≢ end
    → is_in_quiet_hours t end start ≡ not (is_in_quiet_hours t start end)
unfolding is_in_quiet_hours
is_in_quiet_hours_swap t start end ne = ground arith
