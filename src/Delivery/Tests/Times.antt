-- ===== src/Delivery/Tests/Times.antt =====
-- Runs of the quiet hours and of the backoff.
use substy.Base.{
  suc, ◌+◌, ◌-◌, ◌*◌, ◌^◌, ◌%◌, ◌<◌, ◌≤◌, min, ◌≡◌, ◌↔◌, refl, true, false, not, second, day, arith,
}
use substy.Delivery.QuietHours.{is_in_quiet_hours, quiet_end}
use substy.Delivery.QuietHours.Intervals.{is_in_quiet_hours_iff, is_in_quiet_hours_swap}
use substy.Delivery.QuietHours.NextAllowed.{quiet_end_allowed, quiet_until_end}
use substy.Delivery.Backoff.{compute_backoff_delay}
use substy.Delivery.Backoff.Bounds.{compute_backoff_delay_bounds, compute_backoff_delay_mono}
use substy.Delivery.Tests.{ten_o_clock, nine_o_clock, eleven_o_clock}

night_is_quiet :
    is_in_quiet_hours (23 * 3600 * second) (22 * 3600 * second) (7 * 3600 * second) ≡ true
unfolding is_in_quiet_hours
night_is_quiet = refl

morning_is_not :
    is_in_quiet_hours (7 * 3600 * second) (22 * 3600 * second) (7 * 3600 * second) ≡ false
unfolding is_in_quiet_hours
morning_is_not = refl

is_in_quiet_hours_iff_example :
    (is_in_quiet_hours (23 * 3600 * second) (22 * 3600 * second) (7 * 3600 * second) ≡ true) ↔ (
      (23 * 3600 * second + day - 22 * 3600 * second) % day
      < (7 * 3600 * second + day - 22 * 3600 * second) % day)
is_in_quiet_hours_iff_example =
    is_in_quiet_hours_iff (23 * 3600 * second) (22 * 3600 * second) (7 * 3600 * second)
      (omega arith) (omega arith) (omega arith)

swapped_ends :
    is_in_quiet_hours 100 eleven_o_clock nine_o_clock
    ≡ not (is_in_quiet_hours 100 nine_o_clock eleven_o_clock)
swapped_ends = is_in_quiet_hours_swap 100 nine_o_clock eleven_o_clock (omega arith)

quiet_at_ten : is_in_quiet_hours (ten_o_clock % day) nine_o_clock eleven_o_clock ≡ true
unfolding is_in_quiet_hours
quiet_at_ten = refl

ends_at_eleven : quiet_end ten_o_clock nine_o_clock eleven_o_clock ≡ day + eleven_o_clock
unfolding quiet_end
ends_at_eleven = refl

quiet_end_allowed_example :
    (ten_o_clock < quiet_end ten_o_clock nine_o_clock eleven_o_clock)
    × (quiet_end ten_o_clock nine_o_clock eleven_o_clock ≤ ten_o_clock + day)
    × (is_in_quiet_hours
          (quiet_end ten_o_clock nine_o_clock eleven_o_clock % day)
          nine_o_clock
          eleven_o_clock
        ≡ false)
quiet_end_allowed_example =
    quiet_end_allowed ten_o_clock nine_o_clock eleven_o_clock (omega arith) (omega arith)
      quiet_at_ten

quiet_until_end_example :
    is_in_quiet_hours ((ten_o_clock + second) % day) nine_o_clock eleven_o_clock ≡ true
quiet_until_end_example =
    quiet_until_end ten_o_clock nine_o_clock eleven_o_clock (ten_o_clock + second) (omega arith)
      (omega arith) quiet_at_ten (omega arith) (rw ends_at_eleven (omega arith))

third_delay : compute_backoff_delay (λ n. 2) 3 5 300 5 ≡ 22
unfolding compute_backoff_delay
third_delay = refl

compute_backoff_delay_bounds_example :
    (compute_backoff_delay (λ n. 2) 3 5 300 5 ≤ 300)
    × (min 5 300 ≤ compute_backoff_delay (λ n. 2) 3 5 300 5)
    × (compute_backoff_delay (λ n. 2) 3 5 300 5 ≤ 5 * 2 ^ (3 - 1) + 5)
compute_backoff_delay_bounds_example = compute_backoff_delay_bounds (λ n. 2) 3 5 300 5 (omega arith)

compute_backoff_delay_mono_example :
    compute_backoff_delay (λ n. 2) 3 5 300 5 ≤ compute_backoff_delay (λ n. 2) (suc 3) 5 300 5
compute_backoff_delay_mono_example = compute_backoff_delay_mono (λ n. 2) 3 5 300 5
