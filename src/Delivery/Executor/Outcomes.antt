-- ===== src/Delivery/Executor/Outcomes.antt =====
-- How a delivery ends (services/delivery_executor.py), for an attempt that is due.
use substy.Base.{
  ℕ, ◌+◌, ◌≡◌, ◌≤◌, true, false, none, some, [], ◌∷◌, ◌++◌, find_row, ok, err, no_tx, external,
  arith, take_chars,
}
use substy.Delivery.Model.{DeliveryAttemptRecord, Store, DeliveryResult, Message, succeeded, Event}
use substy.Delivery.Metrics.{inc_sent, inc_dead}
use substy.Delivery.Attempts.{
  same_id, update_attempt, sent_row, failed_row, get_for_update, mark_sent, mark_failed,
}
use substy.Delivery.Executor.{
  Service, Provider, execute_send, is_final, not_due, attempt_delivery, deliver, on_result,
  on_success, on_dead, next_quiet_hours_retry, provider_send, result_code, result_message,
}
use substy.Delivery.Effects.{publish_json, uuid4}

-- The attempt is found, open and due, the session is idle, it is not quiet now, and the channel's
-- provider answers with this result.
pub record IsSent (svc : Service) (attempt_id : ℕ) (s : Store) (a : DeliveryAttemptRecord)
    (provider : Provider) (r : DeliveryResult) : Type 0 where
  pub found : find_row (same_id attempt_id) s.db.delivery_attempts ≡ some a
  pub idle : s.tx ≡ no_tx
  pub open_row : is_final svc a.status ≡ false
  pub due : not_due svc a.next_retry_at ≡ false
  pub not_quiet : next_quiet_hours_retry svc.zones svc.now_utc a ≡ ok none
  pub configured : svc.providers a.channel ≡ some provider
  pub answer : provider a.user_id a.payload ≡ some r

module _ (svc : Service) (attempt_id : ℕ) (s : Store) (a : DeliveryAttemptRecord)
    (provider : Provider) (r : DeliveryResult) (h : IsSent svc attempt_id s a provider r) where
  open svc use {settings, env, now_utc}

  abbrev message : Message
  message = record { channel = a.channel; user_id = a.user_id; payload = a.payload }

  abbrev success_event : Event
  success_event =
      succeeded (env.uuid s.world.draws) a.notification_id a.user_id a.channel a.id now_utc

  -- For an attempt that is found, open, due and not in quiet hours: a delivery that succeeds and
  -- that JetStream takes the event of marks the attempt sent, publishes the event, counts it, and
  -- changes nothing else.
  pub execute_send-delivered :
      r.success ≡ true
      → env.publish_ok settings.nats_subject_delivery_succeeded success_event ≡ true
      → execute_send svc attempt_id s ≡ (
        ok tt,
        record s {
          db = update_attempt a.id (sent_row env) s.db;
          world = record s.world {
            messages = s.world.messages ++ message ∷ [];
            published =
                s.world.published ++ (settings.nats_subject_delivery_succeeded, success_event) ∷ [];
            metrics = inc_sent s.world.metrics;
            draws = s.world.draws + 1;
          };
        },
      )
  unfolding execute_send get_for_update attempt_delivery deliver provider_send on_result on_success
      mark_sent uuid4 publish_json
  execute_send-delivered success accepted =
      ground (arith, h.found, h.idle, h.open_row, h.due, h.not_quiet, h.configured, h.answer)

  -- For an attempt that is found, open, due and not in quiet hours: if the provider succeeds but
  -- JetStream refuses the event, the call raises and the tables are as before, though the message
  -- has left.
  pub execute_send-unannounced :
      r.success ≡ true
      → env.publish_ok settings.nats_subject_delivery_succeeded success_event ≡ false
      → let (result, s') = execute_send svc attempt_id s in
        (result ≡ err (external "publish"))
        × (s'.db ≡ s.db)
        × (s'.tx ≡ no_tx)
        × (s'.world.messages ≡ s.world.messages ++ message ∷ [])
  unfolding execute_send get_for_update attempt_delivery deliver provider_send on_result on_success
      mark_sent uuid4 publish_json
  execute_send-unannounced success refused =
      ground (arith, h.found, h.idle, h.open_row, h.due, h.not_quiet, h.configured, h.answer)

  -- For an attempt that is found, open, due and not in quiet hours: a failure that uses the last
  -- attempt, and that JetStream takes the event of, marks the attempt dead with no retry time, is
  -- counted, and is published with the message cut to 120 characters; no job is enqueued.
  pub execute_send-dead :
      r.success ≡ false
      → settings.delivery_max_attempts ≤ a.attempt_no + 1
      → (event : Event)
      → event
        ≡ Event.failed
            (env.uuid s.world.draws)
            a.notification_id
            a.user_id
            a.channel
            a.id
            (result_code svc r)
            (take_chars 120 (result_message svc r))
            now_utc
      → env.publish_ok settings.nats_subject_delivery_failed event ≡ true
      → execute_send svc attempt_id s ≡ (
        ok tt,
        record s {
          db =
              update_attempt a.id
                (failed_row env
                  (a.attempt_no + 1)
                  (result_code svc r)
                  (result_message svc r)
                  none
                  true)
                s.db;
          world = record s.world {
            messages = s.world.messages ++ message ∷ [];
            published = s.world.published ++ (settings.nats_subject_delivery_failed, event) ∷ [];
            metrics = inc_dead s.world.metrics;
            draws = s.world.draws + 1;
          };
        },
      )
  unfolding execute_send get_for_update attempt_delivery deliver provider_send on_result on_dead
      mark_failed uuid4 publish_json
  execute_send-dead failure last event e accepted =
      ground (arith, h.found, h.idle, h.open_row, h.due, h.not_quiet, h.configured, h.answer)
