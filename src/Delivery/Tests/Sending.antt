-- ===== src/Delivery/Tests/Sending.antt =====
-- Runs of the executor.
use substy.Base.{
  ℕ, ◌+◌, ◌*◌, ◌%◌, ◌<◌, ◌≡◌, ◌⊎◌, refl, true, false, some, [], ◌∷◌, ◌++◌, All, find_row, ok, err,
  external, no_tx, second, day, arith,
}
use substy.Delivery.QuietHours.{
  utc, is_in_quiet_hours, quiet_end, compute_next_allowed_time, resolve_timezone,
}
use substy.Delivery.Effects.{uuid4, publish_json}
use substy.Delivery.Model.{DeliveryAttemptRecord}
use substy.Delivery.Attempts.{get_for_update, mark_sent, same_id}
use substy.Delivery.Executor.{
  provider_send, Service, execute_send, next_quiet_hours_retry, later_retry,
}
use substy.Delivery.Executor.Quiet.{HasQuietHours, execute_send-quiet, later_retry-quiet}
use substy.Delivery.Executor.Rows.{Touches, execute_send-Touches}
use substy.Delivery.Executor.Lifecycle.{Fits, Evolves, execute_send-Fits, execute_send-Evolves}
use substy.Delivery.Executor.Outcomes.{IsSent, execute_send-unannounced}
use substy.Delivery.Tests.{
  test_env, accepted, refused, ten_o_clock, nine_o_clock, eleven_o_clock, test_service,
  test_attempt, quiet_attempt, store_with, one_attempt,
}

sends_once : (execute_send (test_service accepted) 1 one_attempt).1.world.draws ≡ 1
unfolding execute_send get_for_update next_quiet_hours_retry provider_send mark_sent uuid4
    publish_json
sends_once = refl

quiet_hours : HasQuietHours (test_service accepted) quiet_attempt utc nine_o_clock eleven_o_clock
quiet_hours = record { starts = refl; ends = refl; zone = refl }

is_quiet_now : is_in_quiet_hours (ten_o_clock % day) nine_o_clock eleven_o_clock ≡ true
unfolding is_in_quiet_hours
is_quiet_now = refl

end_is_ahead : ten_o_clock < quiet_end ten_o_clock nine_o_clock eleven_o_clock
unfolding quiet_end
end_is_ahead = omega arith

execute_send-quiet_example :
    (execute_send (test_service accepted) 1 (store_with (quiet_attempt ∷ []))).1.world.messages ≡ []
execute_send-quiet_example =
    execute_send-quiet (test_service accepted) 1 (store_with (quiet_attempt ∷ [])) quiet_attempt utc
      nine_o_clock eleven_o_clock refl quiet_hours is_quiet_now end_is_ahead

quiet_retry_is_eleven :
    next_quiet_hours_retry (test_service accepted).zones ten_o_clock quiet_attempt
    ≡ ok (some (day + eleven_o_clock))
unfolding next_quiet_hours_retry resolve_timezone compute_next_allowed_time
quiet_retry_is_eleven = refl

later_retry-quiet_example :
    is_in_quiet_hours
      (later_retry (test_service accepted) ten_o_clock (some (day + eleven_o_clock)) % day)
      nine_o_clock
      eleven_o_clock
    ≡ false
later_retry-quiet_example =
    later_retry-quiet (test_service accepted) quiet_attempt utc nine_o_clock eleven_o_clock
      ten_o_clock (some (day + eleven_o_clock)) (omega arith) (omega arith) quiet_hours
      (λ q. end_is_ahead) refl quiet_retry_is_eleven

one_row_changes :
    Touches
      (test_service accepted)
      test_attempt
      one_attempt.db
      (execute_send (test_service accepted) 1 one_attempt).1.db
one_row_changes = execute_send-Touches (test_service accepted) test_attempt 1 one_attempt refl

execute_send-Fits_example :
    All (Fits 3) (execute_send (test_service refused) 1 one_attempt).1.db.delivery_attempts
execute_send-Fits_example =
    execute_send-Fits (test_service refused) 1 one_attempt (omega arith) (tt, tt) ((refl, refl), tt)

execute_send-Evolves_example :
    (r : DeliveryAttemptRecord) × (find_row
        (same_id 1)
        (execute_send (test_service refused) 1 one_attempt).1.db.delivery_attempts
      ≡ some r)
    × Evolves (test_service refused) test_attempt r
    × ((test_attempt.id ≡ test_attempt.id) ⊎ (r ≡ test_attempt))
execute_send-Evolves_example =
    execute_send-Evolves (test_service refused) 1 1 one_attempt test_attempt refl

-- The provider accepts, with JetStream down.
abbrev cut_off : Service
cut_off = record (test_service accepted) {
  env = record test_env { publish_ok = λ subject event. false };
}

sending_cut_off :
    IsSent cut_off 1 one_attempt test_attempt (λ user_id payload. some accepted) accepted
unfolding next_quiet_hours_retry
sending_cut_off = record {
  found = refl;
  idle = refl;
  open_row = refl;
  due = refl;
  not_quiet = refl;
  configured = refl;
  answer = refl;
}

execute_send-unannounced_example :
    let (result, s') = execute_send cut_off 1 one_attempt in
    (result ≡ err (external "publish"))
    × (s'.db ≡ one_attempt.db)
    × (s'.tx ≡ no_tx)
    × (s'.world.messages
        ≡ [] ++ record { channel = "email"; user_id = 9; payload = test_attempt.payload } ∷ [])
execute_send-unannounced_example =
    execute_send-unannounced cut_off 1 one_attempt test_attempt (λ user_id payload. some accepted)
      accepted sending_cut_off refl refl

abbrev retry_time : ℕ
retry_time = ten_o_clock + 7 * second
