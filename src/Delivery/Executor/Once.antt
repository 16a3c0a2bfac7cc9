-- ===== src/Delivery/Executor/Once.antt =====
-- The end of a delivery, and the calls after it (services/delivery_executor.py).
use substy.Base.{
  ℕ, ◌+◌, ◌≡◌, refl, ◌≤◌, inl, inr, true, false, none, some, [], ◌∷◌, ◌++◌, find_row, ok,
  or_default, take_chars,
}
use substy.Delivery.Model.{
  DeliveryAttemptRecord, sent, dead, Store, DeliveryResult, Message, succeeded, Event,
}
use substy.Delivery.Metrics.{inc_sent, inc_dead}
use substy.Delivery.Attempts.{same_id, sent_row, failed_row}
use substy.Delivery.Executor.{Service, Provider, execute_send}
use substy.Delivery.Executor.Skips.{execute_send_skips, found_after}
use substy.Delivery.Executor.Outcomes.{IsSent, execute_send-delivered, execute_send-dead}

module _ (svc again : Service) (attempt_id : ℕ) (s : Store) (a : DeliveryAttemptRecord)
    (provider : Provider) (r : DeliveryResult) (h : IsSent svc attempt_id s a provider r) where
  open svc use {settings, env, now_utc}

  abbrev handed : Message
  handed = record { channel = a.channel; user_id = a.user_id; payload = a.payload }

  abbrev success : Event
  success = succeeded (env.uuid s.world.draws) a.notification_id a.user_id a.channel a.id now_utc

  abbrev failure : Event
  failure =
      Event.failed (env.uuid s.world.draws) a.notification_id a.user_id a.channel a.id
        (or_default r.error_code "delivery_failed")
        (take_chars 120 (or_default r.error_message "Delivery failed")) now_utc

  -- A delivery that succeeds is the last: for an attempt that is found, open, due and not in quiet
  -- hours, whose provider succeeds and whose event JetStream takes, the row becomes sent, with no
  -- retry time and no error, one message has gone to the attempt's user on its channel, one event
  -- is published, one delivery is counted and no job is enqueued; and a second call for it, from the
  -- store that this one left, at any time and with whatever providers, returns and changes nothing.
  pub delivered_once :
      r.success ≡ true
      → env.publish_ok settings.nats_subject_delivery_succeeded success ≡ true
      → let (result, s') = execute_send svc attempt_id s in
        (result ≡ ok tt)
        × (find_row (same_id attempt_id) s'.db.delivery_attempts
            ≡ some (record a {
              status = sent;
              updated_at = env.db_now;
              next_retry_at = none;
              last_error_code = none;
              last_error_message = none;
            }))
        × (s'.world.messages ≡ s.world.messages ++ handed ∷ [])
        × (s'.world.published
            ≡ s.world.published ++ (settings.nats_subject_delivery_succeeded, success) ∷ [])
        × (s'.world.jobs ≡ s.world.jobs)
        × (s'.world.metrics.delivery_sent_total ≡ s.world.metrics.delivery_sent_total + 1)
        × (execute_send again attempt_id s' ≡ (ok tt, s'))
  unfolding inc_sent
  delivered_once succeeds taken =
      let after = found_after attempt_id s.db a (sent_row env) h.found (λ x. refl) in
      rw (execute_send-delivered svc attempt_id s a provider r h succeeds taken) (
        refl,
        after,
        refl,
        refl,
        refl,
        refl,
        execute_send_skips again attempt_id _ (sent_row env a) h.idle after (inl refl),
      )

  -- The last failure ends the retries: for an attempt that is found, open, due and not in quiet
  -- hours, whose provider fails, with no attempts left and the event taken by JetStream, the row
  -- becomes dead, with the number of this attempt, the failure and no retry time, one message was
  -- handed to the provider, the failure is published, its message cut to 120 characters, one dead
  -- delivery is counted and no job is enqueued; and a second call for it, from the store that this
  -- one left, at any time and with whatever providers, returns and changes nothing.
  pub dead_once :
      r.success ≡ false
      → settings.delivery_max_attempts ≤ a.attempt_no + 1
      → env.publish_ok settings.nats_subject_delivery_failed failure ≡ true
      → let (result, s') = execute_send svc attempt_id s in
        (result ≡ ok tt)
        × (find_row (same_id attempt_id) s'.db.delivery_attempts
            ≡ some (record a {
              status = dead;
              attempt_no = a.attempt_no + 1;
              updated_at = env.db_now;
              next_retry_at = none;
              last_error_code = some (or_default r.error_code "delivery_failed");
              last_error_message =
                  some (take_chars 512 (or_default r.error_message "Delivery failed"));
            }))
        × (s'.world.messages ≡ s.world.messages ++ handed ∷ [])
        × (s'.world.published
            ≡ s.world.published ++ (settings.nats_subject_delivery_failed, failure) ∷ [])
        × (s'.world.jobs ≡ s.world.jobs)
        × (s'.world.metrics.delivery_dead_total ≡ s.world.metrics.delivery_dead_total + 1)
        × (execute_send again attempt_id s' ≡ (ok tt, s'))
  unfolding inc_dead
  dead_once fails last taken =
      let f =
        failed_row env (a.attempt_no + 1) (or_default r.error_code "delivery_failed")
          (or_default r.error_message "Delivery failed") none true in
      let after = found_after attempt_id s.db a f h.found (λ x. refl) in
      rw (execute_send-dead svc attempt_id s a provider r h fails last failure refl taken) (
        refl,
        after,
        refl,
        refl,
        refl,
        refl,
        execute_send_skips again attempt_id _ (f a) h.idle after (inr (inl refl)),
      )
