-- ===== src/Base/Time.antt =====
-- Times in microseconds: an instant since 0001-01-01 00:00 UTC, a wall-clock time since
-- 0001-01-01 00:00 local time, a time of day since midnight.
use Prim.Native.Nat.{ℕ}

-- A Python `datetime`: one with a UTC offset stands for an instant, one without for a wall time.
pub data Datetime : Type 0 where
  naive aware : ℕ → Datetime

abbrev pub second : ℕ
second = 1_000_000

abbrev pub day : ℕ
day = 86_400_000_000
