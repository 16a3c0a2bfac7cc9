-- ===== src/Delivery/Model.antt =====
-- The data of the delivery service: its rows (repositories/records.py and the migrations), its
-- settings (core/settings.py), its events (schemas/events.py), and its state. A UUID is a number.
use substy.Base.{ℕ, List, Option, String, Bool, Json, State, Action}

-- The CHECK constraint on `status`.
pub data Status : Type 0 where
  pending sent failed dead : Status

pub record DeliveryAttemptRecord : Type 0 where
  pub id : ℕ
  pub notification_id : ℕ
  pub user_id : ℕ
  pub channel : String
  pub payload : Json
  pub quiet_hours_start : Option ℕ
  pub quiet_hours_end : Option ℕ
  pub timezone : String
  pub status : Status
  pub attempt_no : ℕ
  pub last_error_code : Option String
  pub last_error_message : Option String
  pub next_retry_at : Option ℕ
  pub created_at : ℕ
  pub updated_at : ℕ

pub record ProcessedEventRecord : Type 0 where
  pub event_id : ℕ
  pub subject : String
  pub processed_at : ℕ

pub record Db : Type 0 where
  pub delivery_attempts : List DeliveryAttemptRecord
  pub processed_events : List ProcessedEventRecord

-- A job in the arq queue: `send_{channel}` of an attempt, or `retry_attempt`, deferred by a time.
pub data Job : Type 0 where
  send : String → ℕ → Job
  retry_attempt : ℕ → String → ℕ → Job

-- What is published on JetStream (DeliverySucceededEvent, DeliveryFailedEvent).
pub data Event : Type 0 where
  succeeded :
      (event_id notification_id user_id : ℕ) (channel : String) (attempt_id delivered_at : ℕ)
      → Event
  failed :
      (event_id notification_id user_id : ℕ) (channel : String) (attempt_id : ℕ)
      (error_code error_message : String) (failed_at : ℕ)
      → Event

-- core/metrics.py, MetricsRegistry; a sum of seconds is kept in microseconds.
pub record MetricsRegistry : Type 0 where
  pub delivery_attempts_created_total : List (String × ℕ)
  pub delivery_sent_total : ℕ
  pub delivery_failed_total : ℕ
  pub delivery_dead_total : ℕ
  pub delivery_delayed_quiet_hours_total : List (String × ℕ)
  pub delivery_delay_sum : ℕ
  pub delivery_delay_count : ℕ
  pub jetstream_messages_processed_total : ℕ

-- A message handed to a provider.
pub record Message : Type 0 where
  pub channel : String
  pub user_id : ℕ
  pub payload : Json

-- Outside the database: the job queue, what was published, what was handed to the providers, the
-- counters, and how many random UUIDs were drawn.
pub record World : Type 0 where
  pub jobs : List Job
  pub published : List (String × Event)
  pub messages : List Message
  pub metrics : MetricsRegistry
  pub draws : ℕ

abbrev pub Store : Type 0
Store = State Db World

abbrev pub Call : Type 0 → Type 0
Call A = Action Store A

-- providers/base.py
pub record DeliveryResult : Type 0 where
  pub success : Bool
  pub error_code : Option String
  pub error_message : Option String

pub record Settings : Type 0 where
  pub nats_subject_delivery_succeeded : String
  pub nats_subject_delivery_failed : String
  pub delivery_max_attempts : ℕ
  pub delivery_base_delay_seconds : ℕ
  pub delivery_max_delay_seconds : ℕ
  pub delivery_retry_jitter_seconds : ℕ

-- What the environment answers: `uuid4`, the database's now(), the random draw, and whether
-- JetStream and the job queue take what they are given. `none` is an answer that raises.
pub record Env : Type 0 where
  pub uuid : ℕ → ℕ
  pub db_now : ℕ
  pub randint : ℕ → ℕ
  pub publish_ok : String → Event → Bool
  pub enqueue_ok : Job → Bool
