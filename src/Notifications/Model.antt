-- ===== src/Notifications/Model.antt =====
-- The data of the notifications service: its rows (repositories/records.py and the migration), its
-- settings, and its state. A UUID is a number.
use substy.Base.{ℕ, List, Option, String, Bool, Json, State, Action}

-- The CHECK constraint on `status`.
pub data Status : Type 0 where
  created scheduled queued cancelled : Status

pub record NotificationRecord : Type 0 where
  pub id : ℕ
  pub topic_id : ℕ
  pub payload : Json
  pub scheduled_at : Option ℕ
  pub status : Status
  pub created_by : ℕ
  pub idempotency_key : Option String
  pub created_at : ℕ
  pub updated_at : ℕ

-- The JSON object that an outbox event carries: its numbers and times are printed as texts there.
pub record EventPayload : Type 0 where
  pub event_id : ℕ
  pub notification_id : ℕ
  pub topic_id : ℕ
  pub created_by : ℕ
  pub payload : Json
  pub scheduled_at : Option ℕ
  pub created_at : ℕ

pub record EventHeaders : Type 0 where
  pub request_id : String
  pub user_id : ℕ
  pub source : Option String

pub record OutboxEventRecord : Type 0 where
  pub id : ℕ
  pub aggregate_type : String
  pub aggregate_id : ℕ
  pub event_type : String
  pub payload : EventPayload
  pub headers : EventHeaders
  pub created_at : ℕ
  pub published_at : Option ℕ
  pub publish_attempts : ℕ
  pub last_error : Option String

pub record Db : Type 0 where
  pub notifications : List NotificationRecord
  pub outbox_events : List OutboxEventRecord

-- core/metrics.py, the counters and gauges (the sums of measured durations are left out).
pub record MetricsRegistry : Type 0 where
  pub notifications_created_total : ℕ
  pub outbox_unpublished_count : ℕ
  pub outbox_publish_attempts_total : ℕ
  pub outbox_publish_failures_total : ℕ
  pub scheduler_picked_total : ℕ
  pub scheduled_backlog_count : ℕ
  pub scheduled_due_count : ℕ

-- Outside the database: the events on JetStream, the counters, and how many UUIDs were drawn.
pub record World : Type 0 where
  pub published : List OutboxEventRecord
  pub metrics : MetricsRegistry
  pub draws : ℕ

abbrev pub Store : Type 0
Store = State Db World

abbrev pub Call : Type 0 → Type 0
Call A = Action Store A

pub record Settings : Type 0 where
  pub payload_max_bytes : ℕ
  pub payload_max_depth : ℕ
  pub outbox_batch_size : ℕ
  pub scheduler_batch_size : ℕ

-- What the environment answers: `uuid4`, the database's now(), the service's clock, what other
-- sessions commit between two statements of a call, the rows that they have locked, and whether
-- JetStream takes an event, or the message of what it raises.
pub record Env : Type 0 where
  pub settings : Settings
  pub uuid : ℕ → ℕ
  pub db_now : ℕ
  pub now : ℕ
  pub others : Db → Db
  pub locked : ℕ → Bool
  pub publish_error : OutboxEventRecord → Option String
