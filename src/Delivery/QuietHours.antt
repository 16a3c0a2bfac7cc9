-- ===== src/Delivery/QuietHours.antt =====
-- core/quiet_hours.py. The time zone database is not part of the program: `Zones` stands for
-- `zoneinfo`, and a zone for its two conversions.
pub mod Intervals
pub mod NextAllowed
use substy.Base.{
  ℕ, ◌+◌, ◌*◌, ◌/◌, ◌%◌, Bool, true, false, not, ◌&&◌, ◌||◌, String, ltb, leb, ◌==◌, if◌then◌else◌,
  Outcome, ok, err, Error, value_error, zone_not_found, Datetime, naive, aware, day,
}

-- `astimezone` from UTC to the wall clock, and from the wall clock (fold 0) to UTC.
pub record Zone : Type 0 where
  pub wall : ℕ → ℕ
  pub instant : ℕ → ℕ

abbrev pub utc : Zone
utc = record { wall = λ t. t; instant = λ t. t }

-- `ZoneInfo(name)`, which raises on an unknown or malformed name.
pub record Zones : Type 0 where
  pub zone_info : String → Outcome Zone

unfoldable pub resolve_timezone : Zones → String → Outcome (Zone × Bool)
resolve_timezone z timezone_name = elim (z.zone_info timezone_name) [
  | ok tz ↦ ok (tz, true)
  | err e ↦ fallback e
]
  where
    fallback : Error → Outcome (Zone × Bool)
    fallback zone_not_found = elim (z.zone_info "UTC") [ ok tz ↦ ok (tz, false) | err e ↦ err e ]
    fallback e = err e

unfoldable pub is_in_quiet_hours : ℕ → ℕ → ℕ → Bool
is_in_quiet_hours current start end =
    if start == end
    then false
    else if ltb start end
    then leb start current && ltb current end
    else leb start current || ltb current end

-- The date, in days, on which the quiet hours end.
unfoldable pub compute_quiet_end_date : ℕ → ℕ → ℕ → ℕ → ℕ
compute_quiet_end_date current_date local_time start end =
    if ltb start end
    then current_date
    else if leb start local_time
    then current_date + 1
    else current_date

-- `datetime.combine(end_date, quiet_hours_end)`, as a wall time.
unfoldable pub quiet_end : ℕ → ℕ → ℕ → ℕ
unfolding compute_quiet_end_date
quiet_end local_now start end =
    compute_quiet_end_date (local_now / day) (local_now % day) start end * day + end

-- `compute_next_allowed_time` once the zone is resolved.
unfoldable pub next_allowed_in : Zone → ℕ → ℕ → ℕ → ℕ
unfolding is_in_quiet_hours quiet_end
next_allowed_in tz now start end =
    let local_now = tz.wall now in
    if not (is_in_quiet_hours (local_now % day) start end)
    then now
    else tz.instant (quiet_end local_now start end)

unfoldable pub compute_next_allowed_time : Zones → Datetime → String → ℕ → ℕ → Outcome ℕ
unfolding resolve_timezone next_allowed_in
compute_next_allowed_time z (naive t) name start end =
    err (value_error "now_utc must be timezone-aware")
compute_next_allowed_time z (aware now) name start end = elim (resolve_timezone z name) [
  | ok (tz, _) ↦ ok (next_allowed_in tz now start end)
  | err e ↦ err e
]
