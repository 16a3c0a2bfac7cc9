-- ===== src/Delivery/Tests.antt =====
-- Test data for the delivery service: one subscriber, one provider, UTC everywhere.
pub mod Times
pub mod Sending
pub mod Repeats
pub mod Spreading
pub mod Working
use substy.Base.{
  ℕ, str_eq, if◌then◌else◌, ◌+◌, ◌*◌, Bool, true, Option, none, some, List, [], ◌∷◌, String, Json,
  ok, err, external, no_tx, State, second, day,
}
use substy.Delivery.QuietHours.{Zones, utc}
use substy.Delivery.Model.{
  DeliveryAttemptRecord, Status, pending, Db, MetricsRegistry, World, Store, DeliveryResult,
  Settings, Env,
}
use substy.Delivery.Executor.{Service, Provider}
use substy.Delivery.Fanout.{
  NotificationCreatedEvent, SubscriberItem, SubscribersPage, FanoutService,
}

abbrev pub test_env : Env
test_env = record {
  uuid = λ n. 500 + n;
  db_now = 7000;
  randint = λ n. 2;
  publish_ok = λ subject event. true;
  enqueue_ok = λ job. true;
}

abbrev pub test_zones : Zones
test_zones = record { zone_info = λ name. ok utc }

abbrev pub test_settings : Settings
test_settings = record {
  nats_subject_delivery_succeeded = "delivery.succeeded.v1";
  nats_subject_delivery_failed = "delivery.failed.v1";
  delivery_max_attempts = 3;
  delivery_base_delay_seconds = 5;
  delivery_max_delay_seconds = 300;
  delivery_retry_jitter_seconds = 5;
}

abbrev pub accepted : DeliveryResult
accepted = record { success = true; error_code = none; error_message = none }

abbrev pub refused : DeliveryResult
refused = record { success = Bool.false; error_code = none; error_message = some "mailbox full" }

-- Ten o'clock on the second day.
abbrev pub ten_o_clock : ℕ
ten_o_clock = day + 10 * 3600 * second

abbrev pub test_service : DeliveryResult → Service
test_service r = record {
  settings = test_settings;
  providers = λ channel. some (λ user_id payload. some r);
  zones = test_zones;
  env = test_env;
  now_utc = ten_o_clock;
}

abbrev pub test_attempt : DeliveryAttemptRecord
test_attempt = record {
  id = 1;
  notification_id = 40;
  user_id = 9;
  channel = "email";
  payload = Json.text "hi";
  quiet_hours_start = none;
  quiet_hours_end = none;
  timezone = "UTC";
  status = pending;
  attempt_no = 0;
  last_error_code = none;
  last_error_message = none;
  next_retry_at = none;
  created_at = 7000;
  updated_at = 7000;
}

-- Quiet from nine to eleven.
abbrev pub nine_o_clock : ℕ
nine_o_clock = 9 * 3600 * second

abbrev pub eleven_o_clock : ℕ
eleven_o_clock = 11 * 3600 * second

abbrev pub quiet_attempt : DeliveryAttemptRecord
quiet_attempt = record test_attempt {
  quiet_hours_start = some nine_o_clock;
  quiet_hours_end = some eleven_o_clock;
}

abbrev pub no_metrics : MetricsRegistry
no_metrics = record {
  delivery_attempts_created_total = [];
  delivery_sent_total = 0;
  delivery_failed_total = 0;
  delivery_dead_total = 0;
  delivery_delayed_quiet_hours_total = [];
  delivery_delay_sum = 0;
  delivery_delay_count = 0;
  jetstream_messages_processed_total = 0;
}

abbrev pub store_with : List DeliveryAttemptRecord → Store
store_with rows = record {
  db = record { delivery_attempts = rows; processed_events = [] };
  tx = no_tx;
  world = record { jobs = []; published = []; messages = []; metrics = no_metrics; draws = 0 };
}

abbrev pub one_attempt : Store
one_attempt = store_with (test_attempt ∷ [])

abbrev pub test_event : NotificationCreatedEvent
test_event = record {
  event_id = 77;
  notification_id = 40;
  topic_id = 3;
  created_by = 8;
  payload = Json.text "hi";
  scheduled_at = none;
  created_at = 6000;
}

abbrev pub subscriber : String → List String → SubscriberItem
subscriber user_id channels = record {
  user_id = user_id;
  subscription_id = "s";
  channels = channels;
  quiet_hours_start = none;
  quiet_hours_end = none;
  timezone = "UTC";
}

-- Two pages: behind the cursor "p2" lies the second one.
abbrev pub first_page : SubscribersPage
first_page = record {
  items = subscriber "9" (" email" ∷ "email" ∷ []) ∷ [];
  next_cursor = some "p2";
}

abbrev pub second_page : SubscribersPage
second_page = record {
  items = subscriber "x" ("email" ∷ []) ∷ subscriber "10" ("push" ∷ []) ∷ [];
  next_cursor = none;
}

abbrev pub page_at : Option String → SubscribersPage
page_at none = first_page
page_at (some cursor) = second_page

abbrev pub parse_test : String → Option ℕ
parse_test text = if str_eq text "9" then some 9 else if str_eq text "10" then some 10 else none

abbrev pub test_fanout : FanoutService
test_fanout = record {
  env = test_env;
  delivery_channels = "push, email";
  fetch_page = λ topic_id cursor. ok (page_at cursor);
  parse_uuid = parse_test;
  lower = λ s. s;
}
