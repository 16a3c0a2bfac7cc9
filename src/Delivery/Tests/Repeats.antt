-- ===== src/Delivery/Tests/Repeats.antt =====
-- Runs of the executor that are followed by another call for the attempt.
use substy.Base.{◌+◌, ◌*◌, ◌≡◌, refl, some, [], ◌∷◌, find_row, ok, second, arith, take_chars}
use substy.Delivery.Backoff.{compute_backoff_delay}
use substy.Delivery.Effects.{enqueue_job}
use substy.Delivery.Model.{Message, DeliveryAttemptRecord, sent, failed, dead, Event, succeeded}
use substy.Delivery.Attempts.{get_for_update, mark_failed, same_id}
use substy.Delivery.Executor.{provider_send, Service, execute_send, next_quiet_hours_retry}
use substy.Delivery.Executor.Skips.{IsDone}
use substy.Delivery.Executor.Again.{execute_send_again}
use substy.Delivery.Executor.Once.{delivered_once, dead_once}
use substy.Delivery.Executor.Outcomes.{IsSent}
use substy.Delivery.Tests.{
  accepted, refused, ten_o_clock, test_service, test_attempt, store_with, one_attempt,
}

sending :
    IsSent
      (test_service accepted)
      1
      one_attempt
      test_attempt
      (λ user_id payload. some accepted)
      accepted
unfolding next_quiet_hours_retry
sending = record {
  found = refl;
  idle = refl;
  open_row = refl;
  due = refl;
  not_quiet = refl;
  configured = refl;
  answer = refl;
}

abbrev last_attempt : DeliveryAttemptRecord
last_attempt = record test_attempt { attempt_no = 2; status = failed }

failing_last :
    IsSent
      (test_service refused)
      1
      (store_with (last_attempt ∷ []))
      last_attempt
      (λ user_id payload. some refused)
      refused
unfolding next_quiet_hours_retry
failing_last = record {
  found = refl;
  idle = refl;
  open_row = refl;
  due = refl;
  not_quiet = refl;
  configured = refl;
  answer = refl;
}

abbrev email : Message
email = record { channel = "email"; user_id = 9; payload = test_attempt.payload }

-- An hour later, with providers that would refuse.
abbrev hour_later : Service
hour_later = record (test_service refused) { now_utc = ten_o_clock + 3600 * second }

delivered_once_example :
    let (result, s') = execute_send (test_service accepted) 1 one_attempt in
    (result ≡ ok tt)
    × (find_row (same_id 1) s'.db.delivery_attempts
        ≡ some (record test_attempt { status = sent; updated_at = 7000 }))
    × (s'.world.messages ≡ email ∷ [])
    × (s'.world.published
        ≡ ("delivery.succeeded.v1", succeeded 500 40 9 "email" 1 ten_o_clock) ∷ [])
    × (s'.world.jobs ≡ [])
    × (s'.world.metrics.delivery_sent_total ≡ 1)
    × (execute_send hour_later 1 s' ≡ (ok tt, s'))
delivered_once_example =
    delivered_once (test_service accepted) hour_later 1 one_attempt test_attempt
      (λ user_id payload. some accepted) accepted sending refl refl

dead_once_example :
    let (result, s') = execute_send (test_service refused) 1 (store_with (last_attempt ∷ [])) in
    (result ≡ ok tt)
    × (find_row (same_id 1) s'.db.delivery_attempts
        ≡ some (record last_attempt {
          status = dead;
          attempt_no = 3;
          updated_at = 7000;
          last_error_code = some "delivery_failed";
          last_error_message = some (take_chars 512 "mailbox full");
        }))
    × (s'.world.messages ≡ email ∷ [])
    × (s'.world.published
        ≡ (
          "delivery.failed.v1",
          Event.failed 500 40 9 "email" 1 "delivery_failed"
              (take_chars 120 "mailbox full")
              ten_o_clock,
        )
          ∷ [])
    × (s'.world.jobs ≡ [])
    × (s'.world.metrics.delivery_dead_total ≡ 1)
    × (execute_send hour_later 1 s' ≡ (ok tt, s'))
dead_once_example =
    dead_once (test_service refused) hour_later 1 (store_with (last_attempt ∷ [])) last_attempt
      (λ user_id payload. some refused) refused failing_last refl (omega arith) refl

refusal_returns : (execute_send (test_service refused) 1 one_attempt).0 ≡ ok tt
unfolding execute_send get_for_update next_quiet_hours_retry provider_send mark_failed
    compute_backoff_delay enqueue_job
refusal_returns = refl

-- The refused attempt is put off, and the second job finds that its time has not come.
execute_send_again_example :
    let s' = (execute_send (test_service refused) 1 one_attempt).1 in
    ((r : DeliveryAttemptRecord) × (find_row (same_id 1) s'.db.delivery_attempts ≡ some r)
      × IsDone ten_o_clock r)
    × (execute_send (test_service accepted) 1 s' ≡ (ok tt, s'))
execute_send_again_example =
    execute_send_again (test_service refused) (test_service accepted) 1 one_attempt test_attempt
      refl refl (omega arith) (omega arith) (omega arith) refusal_returns (omega arith)
