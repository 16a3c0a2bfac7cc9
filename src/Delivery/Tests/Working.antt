-- ===== src/Delivery/Tests/Working.antt =====
-- Runs of the worker and of its providers.
use mathlib.Core.Option
use substy.Base.{◌+◌, ◌*◌, ℕ, ◌≡◌, refl, false, some, none, find_row, second, arith, ltb, min, max}
use substy.Delivery.Backoff.{compute_backoff_delay}
use substy.Delivery.Model.{Status, DeliveryAttemptRecord, sent, Job, Store}
use substy.Delivery.Attempts.{same_id, get_for_update, mark_sent, mark_failed}
use substy.Delivery.Effects.{uuid4, publish_json, enqueue_job}
use substy.Delivery.Executor.{Service, provider_send, execute_send, next_quiet_hours_retry}
use substy.Delivery.Executor.Lifecycle.{Fits}
use substy.Delivery.Providers.{stub_send, base_stub_provider, build_providers}
use substy.Delivery.Worker.{perform, send_function, send_channel, retry_channel, idle, job}
use substy.Delivery.Worker.Lives.{Outlives, Runs-Outlives}
use substy.Delivery.Tests.{accepted, refused, ten_o_clock, test_service, test_attempt, one_attempt}

-- The worker ten minutes later, when the provider accepts.
abbrev later_service : Service
later_service = record (test_service accepted) { now_utc = ten_o_clock + 600 * second }

abbrev email_refused : Store
email_refused = (perform (test_service refused) (Job.send "email" 1) one_attempt).1

abbrev put_back : Store
put_back = (perform later_service (Job.retry_attempt 1 "email" 0) email_refused).1

abbrev email_accepted : Store
email_accepted = (perform later_service (Job.send "email" 1) put_back).1

refused_then_sent :
    Option.map {B = Status × ℕ}
      (λ a. (a.status, a.attempt_no))
      (find_row (same_id 1) email_accepted.db.delivery_attempts)
    ≡ some (sent, 1)
unfolding perform send_function send_channel retry_channel execute_send get_for_update
    next_quiet_hours_retry provider_send mark_failed mark_sent compute_backoff_delay enqueue_job
    uuid4 publish_json
refused_then_sent = refl

Runs-Outlives_example :
    (r : DeliveryAttemptRecord) × (find_row (same_id 1) email_accepted.db.delivery_attempts
      ≡ some r)
    × Fits 3 r
    × Outlives test_attempt r
Runs-Outlives_example =
    Runs-Outlives 3 1 one_attempt email_accepted test_attempt (omega arith) (tt, tt)
      ((refl, refl), tt) refl
      (job (test_service refused) (Job.send "email" 1) refl (
        job later_service (Job.retry_attempt 1 "email" 0) refl
          (job later_service (Job.send "email" 1) refl idle)))

-- Three in ten, in tenths: a draw of two fails, and one of three does not.
stub_fails_below_rate :
    (stub_send 0 10 min max ltb 3 2 9 test_attempt.payload
      ≡ some (record {
        success = false;
        error_code = some "stub_error";
        error_message = some "Stub provider failure";
      }))
    × (stub_send 0 10 min max ltb 3 3 9 test_attempt.payload ≡ some accepted)
unfolding stub_send
stub_fails_below_rate = (refl, refl)

rate_is_cut : base_stub_provider 0 10 min max ltb 12 ≡ 10
unfolding base_stub_provider
rate_is_cut = refl

no_sms : build_providers 0 10 min max ltb 3 5 "sms" ≡ none
unfolding build_providers
no_sms = refl
