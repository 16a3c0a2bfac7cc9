-- ===== src/Notifications/Tests.antt =====
-- Runs of the notifications service.
pub mod Batches
use substy.Base.{
  All, length, ◌↔◌, ◌≤◌, find_row, has_row, update_where, ◌+◌, ◌≡◌, refl, true, false, some, none,
  [], ◌∷◌, Json, ok, no_tx, map, sort_by,
}
use substy.Notifications.Payload.{payload_size_bytes, payload_depth}
use substy.Notifications.Model.{
  NotificationRecord, Status, queued, scheduled, OutboxEventRecord, Store, Env,
}
use substy.Notifications.Repository.{
  same_id, to_cancel, with_status, get_by_id, cancel_if_scheduled, create, get_by_idempotency_key,
  lock_due_scheduled_batch, mark_queued_by_ids, count_scheduled_backlog, count_scheduled_due,
}
use substy.Notifications.Outbox.{create_event}
use substy.Notifications.Service.{validate_payload, uuid4, create_notification, cancel_notification}
use substy.Notifications.Scheduler.{run_one_tick}
use substy.Notifications.Publisher.{publish_batch}
use substy.Notifications.Consistency.{IsConsistent}
use substy.Notifications.Consistency.Create.{
  create_notification-IsConsistent, cancel_notification-IsConsistent,
}
use substy.Notifications.Consistency.Tick.{run_one_tick-IsConsistent}
use substy.Notifications.Cancellation.{MayCancel, cancel_notification_lem}
use substy.Notifications.Payload.Depth.{nesting, validate_payload_lem}
use substy.Notifications.Publisher.Delivered.{AreTaken, publish_batch-AreTaken}
use substy.Pagination.{Codec, raised, decode_cursor, cursor_pair}
use substy.Notifications.Listing.{list_my_notifications}
use substy.Notifications.Listing.Own.{IsOwn, list_my_notifications_lem}
use substy.Notifications.Idempotency.{create_notification_twice}

abbrev pub test_env : Env
test_env = record {
  settings = record {
    payload_max_bytes = 1000;
    payload_max_depth = 5;
    outbox_batch_size = 10;
    scheduler_batch_size = 10;
  };
  uuid = λ n. 500 + n;
  db_now = 7000;
  now = 7000;
  others = λ d. d;
  locked = λ i. false;
  publish_error = λ e. none;
}

abbrev pub empty_store : Store
empty_store = record {
  db = record { notifications = []; outbox_events = [] };
  tx = no_tx;
  world = record {
    published = [];
    metrics = record {
      notifications_created_total = 0;
      outbox_unpublished_count = 0;
      outbox_publish_attempts_total = 0;
      outbox_publish_failures_total = 0;
      scheduler_picked_total = 0;
      scheduled_backlog_count = 0;
      scheduled_due_count = 0;
    };
    draws = 0;
  };
}

-- A notification that is due, in a table of its own.
abbrev due_notification : NotificationRecord
due_notification = record {
  id = 40;
  topic_id = 3;
  payload = Json.text "hi";
  scheduled_at = some 6000;
  status = scheduled;
  created_by = 9;
  idempotency_key = none;
  created_at = 5000;
  updated_at = 5000;
}

abbrev one_due : Store
one_due = record empty_store {
  db = record { notifications = due_notification ∷ []; outbox_events = [] };
}

empty-IsConsistent : IsConsistent empty_store.db
empty-IsConsistent = record { unique = tt; announced = tt; known = tt }

one_due-IsConsistent : IsConsistent one_due.db
one_due-IsConsistent = record { unique = (tt, tt); announced = (refl, tt); known = tt }

after_create : Store
after_create = (create_notification test_env 9 3 (Json.text "hi") none (some "k") "r" empty_store).1

after_tick : Store
after_tick = (run_one_tick test_env "r" one_due).1

stores_event :
    map (λ (e : OutboxEventRecord). e.aggregate_id) after_create.db.outbox_events ≡ 500 ∷ []
unfolding after_create create_notification get_by_idempotency_key create create_event
    payload_size_bytes payload_depth
stores_event = refl

queues : map (λ (n : NotificationRecord). n.status) after_tick.db.notifications ≡ queued ∷ []
unfolding after_tick run_one_tick uuid4 lock_due_scheduled_batch mark_queued_by_ids sort_by
    create_event count_scheduled_backlog count_scheduled_due
queues = refl

created_IsConsistent : IsConsistent after_create.db
unfolding after_create
created_IsConsistent =
    create_notification-IsConsistent test_env (λ d c. c) 9 3 (Json.text "hi") none (some "k") "r"
      empty_store empty-IsConsistent

create_notification-IsConsistent_example : IsConsistent after_create.db
unfolding after_create
create_notification-IsConsistent_example =
    create_notification-IsConsistent test_env (λ d c. c) 9 3 (Json.text "hi") none (some "k") "r"
      empty_store empty-IsConsistent

cancel_notification-IsConsistent_example :
    IsConsistent (cancel_notification test_env 40 9 [] one_due).1.db
cancel_notification-IsConsistent_example =
    cancel_notification-IsConsistent test_env (λ d c. c) 40 9 [] one_due one_due-IsConsistent

run_one_tick-IsConsistent_example : IsConsistent (run_one_tick test_env "r" one_due).1.db
run_one_tick-IsConsistent_example =
    run_one_tick-IsConsistent test_env "r" one_due one_due-IsConsistent

abbrev created_row : NotificationRecord
created_row = record {
  id = 500;
  topic_id = 3;
  payload = Json.text "hi";
  scheduled_at = none;
  status = Status.created;
  created_by = 9;
  idempotency_key = some "k";
  created_at = 7000;
  updated_at = 7000;
}

returns_row :
    create_notification test_env 9 3 (Json.text "hi") none (some "k") "r" empty_store
    ≡ (ok (created_row, true), after_create)
unfolding after_create create_notification get_by_idempotency_key create create_event
    payload_size_bytes payload_depth
returns_row = refl

create_notification_twice_example :
    create_notification test_env 9 3 (Json.text "hi") none (some "k") "again" after_create
    ≡ (ok (created_row, false), after_create)
create_notification_twice_example =
    create_notification_twice test_env test_env 9 3 (Json.text "hi") none "k" "r" "again"
      created_row true empty_store after_create refl refl refl returns_row

abbrev cancelled_row : NotificationRecord
cancelled_row = record due_notification { status = Status.cancelled; updated_at = 7000 }

abbrev after_cancel : Store
after_cancel = record one_due {
  db = record { notifications = cancelled_row ∷ []; outbox_events = [] };
}

cancels : cancel_notification test_env 40 9 [] one_due ≡ (ok cancelled_row, after_cancel)
unfolding cancel_notification get_by_id cancel_if_scheduled
cancels = refl

cancel_notification_lem_example :
    ((n : NotificationRecord) × (find_row (same_id 40) one_due.db.notifications ≡ some n)
      × (n.status ≡ scheduled)
      × MayCancel 9 [] n)
    × (cancelled_row.id ≡ 40)
    × (cancelled_row.status ≡ Status.cancelled)
    × (after_cancel.db.notifications
        ≡ update_where
            (to_cancel 40)
            (with_status test_env Status.cancelled)
            (one_due.db.notifications))
    × (has_row (to_cancel 40) after_cancel.db.notifications ≡ false)
    × (after_cancel.db.outbox_events ≡ [])
cancel_notification_lem_example =
    cancel_notification_lem test_env 40 9 [] cancelled_row one_due after_cancel cancels

validate_payload_lem_example :
    (validate_payload test_env.settings (Json.text "hi") ≡ ok tt)
    ↔ ((payload_size_bytes (Json.text "hi") ≤ 1000) × (nesting (Json.text "hi") ≤ 5))
validate_payload_lem_example = validate_payload_lem test_env.settings (Json.text "hi")

created_AreTaken : AreTaken after_create.world.published after_create.db
unfolding after_create create_notification get_by_idempotency_key create create_event
    payload_size_bytes payload_depth
created_AreTaken = (refl, tt)

publish_batch-AreTaken_example :
    AreTaken
      (publish_batch test_env after_create).1.world.published
      (publish_batch test_env after_create).1.db
publish_batch-AreTaken_example = publish_batch-AreTaken test_env after_create created_AreTaken

-- No cursor is given, so that the codec is not asked.
abbrev no_codec : Codec
no_codec = record {
  encode = λ fields. "";
  load = λ text. raised;
  uuid_text = λ i. "";
  parse_uuid = λ text. none;
  time_text = λ t. "";
  parse_time = λ text. none;
}

lists :
    list_my_notifications no_codec 9 10 none (some "scheduled") none one_due
    ≡ (ok (due_notification ∷ [], none), one_due)
unfolding list_my_notifications decode_cursor cursor_pair sort_by
lists = refl

list_my_notifications_lem_example :
    All (IsOwn 9 (some "scheduled") none) (due_notification ∷ [])
    × (length (due_notification ∷ []) ≤ 10)
    × (one_due ≡ one_due)
list_my_notifications_lem_example =
    list_my_notifications_lem 9 (some "scheduled") none no_codec 10 none none
      (due_notification ∷ []) one_due one_due lists
