-- ===== src/Delivery/Executor.antt =====
-- services/delivery_executor.py: DeliveryExecutorService.
pub mod Skips
pub mod Quiet
pub mod Rows
pub mod Lifecycle
pub mod Ahead
pub mod Outcomes
pub mod Again
pub mod Once
use substy.Base.{
  ℕ, ◌+◌, ◌-◌, ◌*◌, ◌≡◌, Bool, true, false, not, Option, none, some, List, [], ◌∷◌, ◌++◌, String,
  ltb, leb, if◌then◌else◌, or_default, take_chars, Outcome, ok, err, Error, runtime_error, external,
  State, Action, pure, raise, lift, gets, modify_world, transaction, ◌>>=◌, ◌>>◌, Datetime, aware,
  second, Json,
}
use substy.Delivery.Backoff.{compute_backoff_delay}
use substy.Delivery.QuietHours.{Zones, resolve_timezone, compute_next_allowed_time}
use substy.Delivery.Model.{
  DeliveryAttemptRecord, Status, pending, sent, failed, dead, Job, retry_attempt, Event, succeeded,
  MetricsRegistry, Message, World, Store, Call, DeliveryResult, Settings, Env,
}
use substy.Delivery.Metrics.{
  inc_sent, inc_failed, inc_dead, inc_delayed_quiet_hours, observe_delivery_delay,
}
use substy.Delivery.Effects.{uuid4, update_metrics, publish_json, enqueue_job}
use substy.Delivery.Attempts.{get_for_update, mark_sent, mark_delayed, mark_failed}

-- A provider's `send`; `none` is a call that raises.
abbrev pub Provider : Type 0
Provider = ℕ → Json → Option DeliveryResult

-- The service's fields: its settings and providers, what the environment answers, and the clock.
pub record Service : Type 0 where
  pub settings : Settings
  pub providers : String → Option Provider
  pub zones : Zones
  pub env : Env
  pub now_utc : ℕ

-- `provider.send`: the message leaves, whatever the provider answers.
unfoldable pub provider_send : Provider → DeliveryAttemptRecord → Call DeliveryResult
provider_send send a s = elim (send a.user_id a.payload) [
  | none ↦ (err (external "send"), handed)
  | some result ↦ (ok result, handed)
]
  where
    message : Message
    message = record { channel = a.channel; user_id = a.user_id; payload = a.payload }

    handed : Store
    handed = record s { world = record s.world { messages = s.world.messages ++ message ∷ [] } }

-- `_next_quiet_hours_retry` once both ends are set.
unfoldable pub quiet_hours_retry : Zones → ℕ → String → ℕ → ℕ → Outcome (Option ℕ)
quiet_hours_retry z now timezone_name start end = elim (resolve_timezone z timezone_name) [
  | err e ↦ err e
  | ok (_, valid_timezone) ↦
      elim (compute_next_allowed_time z (aware now)
        (if valid_timezone then timezone_name else "UTC") start end) [
          | err e ↦ err e
          | ok next_allowed_at ↦ ok (if leb next_allowed_at now then none else some next_allowed_at)
        ]
]

-- `attempt.timezone or "UTC"`
unfoldable pub next_quiet_hours_retry : Zones → ℕ → DeliveryAttemptRecord → Outcome (Option ℕ)
unfolding quiet_hours_retry
next_quiet_hours_retry z now a = ends a.quiet_hours_start a.quiet_hours_end
  where
    ends : Option ℕ → Option ℕ → Outcome (Option ℕ)
    ends none end = ok none
    ends (some start) none = ok none
    ends (some start) (some end) =
        quiet_hours_retry z now (or_default (some a.timezone) "UTC") start end

module _ (svc : Service) where
  open svc use {settings, providers, zones, env, now_utc}

  -- Delayed by quiet hours: the attempt is put off, whatever its number.
  unfoldable pub delay_for_quiet_hours : DeliveryAttemptRecord → ℕ → Call (Unit {0})
  delay_for_quiet_hours a quiet_retry_at = do
    let delay = quiet_retry_at - now_utc
    mark_delayed env a.id quiet_retry_at "quiet_hours" "Delivery delayed due to quiet hours"
    update_metrics (inc_delayed_quiet_hours a.channel)
    update_metrics (observe_delivery_delay delay)
    enqueue_job env (retry_attempt a.id a.channel delay)

  unfoldable pub on_success : DeliveryAttemptRecord → Call (Unit {0})
  on_success a = do
    mark_sent env a.id
    update_metrics inc_sent
    event_id ← uuid4 env
    publish_json env settings.nats_subject_delivery_succeeded
        (succeeded event_id a.notification_id a.user_id a.channel a.id now_utc)

  abbrev pub result_code : DeliveryResult → String
  result_code r = or_default r.error_code "delivery_failed"

  abbrev pub result_message : DeliveryResult → String
  result_message r = or_default r.error_message "Delivery failed"

  unfoldable pub on_dead : DeliveryAttemptRecord → ℕ → DeliveryResult → Call (Unit {0})
  on_dead a next_attempt_no result = do
    mark_failed env a.id next_attempt_no (result_code result) (result_message result) none true
    update_metrics inc_dead
    event_id ← uuid4 env
    publish_json env settings.nats_subject_delivery_failed (
        Event.failed event_id a.notification_id a.user_id a.channel a.id (result_code result)
          (take_chars 120 (result_message result)) now_utc)

  -- The later of the end of the backoff and of the quiet hours then.
  abbrev pub later_retry : ℕ → Option ℕ → ℕ
  later_retry backoff_retry_at none = backoff_retry_at
  later_retry backoff_retry_at (some quiet_retry_at) =
      if ltb backoff_retry_at quiet_retry_at then quiet_retry_at else backoff_retry_at

  abbrev pub backoff_end : ℕ → ℕ
  backoff_end next_attempt_no =
      now_utc
      + compute_backoff_delay env.randint next_attempt_no settings.delivery_base_delay_seconds
          settings.delivery_max_delay_seconds settings.delivery_retry_jitter_seconds
        * second

  unfoldable pub on_retry : DeliveryAttemptRecord → ℕ → DeliveryResult → Call (Unit {0})
  on_retry a next_attempt_no result = do
    let backoff_retry_at = backoff_end next_attempt_no
    quiet_retry_at ← lift (next_quiet_hours_retry zones backoff_retry_at a)
    let next_retry_at = later_retry backoff_retry_at quiet_retry_at
    let delay = next_retry_at - now_utc
    mark_failed env a.id next_attempt_no (result_code result) (result_message result)
        (some next_retry_at) false
    update_metrics inc_failed
    update_metrics (observe_delivery_delay delay)
    enqueue_job env (retry_attempt a.id a.channel delay)

  -- What follows on the provider's answer.
  unfoldable pub on_result : DeliveryAttemptRecord → DeliveryResult → Call (Unit {0})
  unfolding on_success on_dead on_retry
  on_result a result =
      if result.success
      then on_success a
      else if leb settings.delivery_max_attempts (a.attempt_no + 1)
      then on_dead a (a.attempt_no + 1) result
      else on_retry a (a.attempt_no + 1) result

  unfoldable pub deliver : DeliveryAttemptRecord → Call (Unit {0})
  unfolding on_result
  deliver a = elim (providers a.channel) [
    | none ↦ raise (runtime_error "No provider configured")
    | some provider ↦ (provider_send provider a >>= on_result a)
  ]

  abbrev pub is_final : Status → Bool
  is_final sent = true
  is_final dead = true
  is_final pending = false
  is_final failed = false

  -- `attempt.next_retry_at is not None and attempt.next_retry_at > now_utc`
  abbrev pub not_due : Option ℕ → Bool
  not_due none = false
  not_due (some at) = ltb now_utc at

  unfoldable pub attempt_delivery : DeliveryAttemptRecord → Call (Unit {0})
  unfolding delay_for_quiet_hours deliver
  attempt_delivery a =
      if is_final a.status then pure tt else if not_due a.next_retry_at then pure tt else (do
        quiet_retry_at ← lift (next_quiet_hours_retry zones now_utc a)
        elim quiet_retry_at [ some at ↦ delay_for_quiet_hours a at | none ↦ deliver a ])

  unfoldable pub execute_send : ℕ → Call (Unit {0})
  unfolding attempt_delivery
  execute_send attempt_id = transaction (do
    found ← get_for_update attempt_id
    elim found [ none ↦ pure tt | some a ↦ attempt_delivery a ])
