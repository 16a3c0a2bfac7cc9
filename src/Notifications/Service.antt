-- ===== src/Notifications/Service.antt =====
-- services/notifications.py: NotificationsService.
use substy.Base.{
  ℕ, ◌+◌, Bool, true, false, ◌&&◌, not, Option, none, some, List, String, Json, truthy?, member,
  str_eq, ◌==◌, ltb, leb, if◌then◌else◌, Outcome, ok, err, validation_error, not_found, forbidden,
  conflict, postgres, Datetime, naive, aware, transaction, modify_world, pure, raise, lift, ◌>>=◌,
  ◌>>◌,
}
use substy.Notifications.Payload.{payload_size_bytes, payload_depth}
use substy.Notifications.Model.{
  NotificationRecord, Status, created, scheduled, queued, cancelled, OutboxEventRecord,
  EventPayload, EventHeaders, MetricsRegistry, Store, Call, Settings, Env,
}
use substy.Notifications.Repository.{
  create, get_by_id, get_by_idempotency_key, cancel_if_scheduled, is_scheduled,
}
use substy.Notifications.Outbox.{new_event, create_event}

unfoldable pub uuid4 : Env → Call ℕ
uuid4 env s =
    (ok (env.uuid s.world.draws), record s { world = record s.world { draws = s.world.draws + 1 } })

abbrev pub update_metrics : (MetricsRegistry → MetricsRegistry) → Call (Unit {0})
update_metrics f = modify_world λ w. record w { metrics = f w.metrics }

abbrev pub inc_notifications_created : MetricsRegistry → MetricsRegistry
inc_notifications_created m = record m {
  notifications_created_total = m.notifications_created_total + 1;
}

-- What other sessions commit between two statements of a call outside a transaction.
abbrev pub meanwhile : Env → Call (Unit {0})
meanwhile env s = (ok tt, record s { db = env.others s.db })

unfoldable pub validate_payload : Settings → Json → Outcome (Unit {0})
validate_payload settings payload =
    if ltb settings.payload_max_bytes (payload_size_bytes payload)
    then err (validation_error "Payload is too large")
    else if ltb settings.payload_max_depth (payload_depth payload 0)
    then err (validation_error "Payload is too deep")
    else ok tt

unfoldable pub normalize_scheduled_at : Option Datetime → Outcome (Option ℕ)
normalize_scheduled_at none = ok none
normalize_scheduled_at (some (naive t)) =
    err (validation_error "scheduled_at must include timezone")
normalize_scheduled_at (some (aware t)) = ok (some t)

unfoldable pub is_immediate : Env → Option ℕ → Bool
is_immediate env none = true
is_immediate env (some at) = leb at env.now

abbrev pub key_text : Option String → String
key_text none = ""
key_text (some key) = key

-- `if idempotency_key:` and the lookup
unfoldable pub find_existing : ℕ → Option String → Call (Option NotificationRecord)
find_existing user_id idempotency_key =
    if truthy? idempotency_key
    then get_by_idempotency_key user_id (key_text idempotency_key)
    else pure none

abbrev pub event_payload : ℕ → NotificationRecord → EventPayload
event_payload event_id n = record {
  event_id = event_id;
  notification_id = n.id;
  topic_id = n.topic_id;
  created_by = n.created_by;
  payload = n.payload;
  scheduled_at = n.scheduled_at;
  created_at = n.created_at;
}

-- The event of a notification.
abbrev pub created_event : Env → ℕ → EventHeaders → NotificationRecord → OutboxEventRecord
created_event env event_id headers n =
    new_event env event_id "notification" n.id "notification.created.v1" (event_payload event_id n)
      headers

abbrev pub is_created : Status → Bool
is_created created = true
is_created scheduled = false
is_created queued = false
is_created cancelled = false

module _ (env : Env) where
  -- The transaction of `create_notification`.
  unfoldable pub insert_with_event :
      NotificationRecord → OutboxEventRecord → Call NotificationRecord
  insert_with_event n e = transaction (do
    notification ← create n
    (if is_created notification.status
        then create_event e >> pure notification
        else pure notification))

  -- `except asyncpg.PostgresError`: the key may have been taken in between.
  unfoldable pub on_insert :
      ℕ
      → Option String
      → Outcome NotificationRecord × Store
      → Outcome (NotificationRecord × Bool) × Store
  unfolding find_existing
  on_insert user_id key (ok n, s) = (update_metrics inc_notifications_created >> pure (n, true)) s
  on_insert user_id key (err (postgres sqlstate), s) =
      if str_eq sqlstate "23505" && truthy? key
      then (do
        existing ← find_existing user_id key
        elim existing [ some n ↦ pure (n, false) | none ↦ raise (postgres sqlstate) ])
          s
      else (err (postgres sqlstate), s)
  on_insert user_id key (err e, s) = (err e, s)

  -- The row that is inserted.
  abbrev pub new_row : ℕ → ℕ → Json → Option ℕ → Option String → ℕ → NotificationRecord
  new_row user_id topic_id payload scheduled_at key notification_id = record {
    id = notification_id;
    topic_id = topic_id;
    payload = payload;
    scheduled_at = scheduled_at;
    status = if is_immediate env scheduled_at then created else scheduled;
    created_by = user_id;
    idempotency_key = key;
    created_at = env.db_now;
    updated_at = env.db_now;
  }

  abbrev pub request_headers : String → ℕ → EventHeaders
  request_headers request_id user_id = record {
    request_id = request_id;
    user_id = user_id;
    source = none;
  }

  -- From the draw of the ids on.
  unfoldable pub create_new :
      ℕ → ℕ → Json → Option ℕ → Option String → String → Call (NotificationRecord × Bool)
  unfolding uuid4 is_immediate insert_with_event on_insert
  create_new user_id topic_id payload scheduled_at key request_id = do
    notification_id ← uuid4 env
    event_id ← uuid4 env
    let n = new_row user_id topic_id payload scheduled_at key notification_id
    λ s.
        on_insert user_id key (
          insert_with_event n (created_event env event_id (request_headers request_id user_id) n) s)

  -- `if existing: return existing, False`
  unfoldable pub if_absent :
      ℕ
      → ℕ
      → Json
      → Option ℕ
      → Option String
      → String
      → Option NotificationRecord
      → Call (NotificationRecord × Bool)
  unfolding create_new
  if_absent user_id topic_id payload at key request_id (some n) = pure (n, false)
  if_absent user_id topic_id payload at key request_id none =
      meanwhile env >> create_new user_id topic_id payload at key request_id

  unfoldable pub create_notification :
      ℕ → ℕ → Json → Option Datetime → Option String → String → Call (NotificationRecord × Bool)
  unfolding validate_payload normalize_scheduled_at find_existing if_absent
  create_notification user_id topic_id payload scheduled_at key request_id = do
    lift (validate_payload env.settings payload)
    at ← lift (normalize_scheduled_at scheduled_at)
    existing ← find_existing user_id key
    if_absent user_id topic_id payload at key request_id existing

  unfoldable pub get_notification : ℕ → ℕ → List String → Call NotificationRecord
  get_notification i user_id roles = do
    found ← get_by_id i
    elim found [
      | none ↦ raise (not_found "Notification not found")
      | some n ↦
          if not (n.created_by == user_id) && not (member "admin" roles)
          then raise (forbidden "Forbidden")
          else pure n
    ]

  abbrev pub cancel_answer : Option NotificationRecord → Call NotificationRecord
  cancel_answer none = raise (conflict "Notification is not scheduled")
  cancel_answer (some c) = pure c

  -- The UPDATE finds no row if another session has taken the notification in between.
  unfoldable pub cancel_scheduled : ℕ → Call NotificationRecord
  cancel_scheduled i = do
    meanwhile env
    cancelled_row ← cancel_if_scheduled env i
    cancel_answer cancelled_row

  unfoldable pub cancel_found : ℕ → NotificationRecord → Call NotificationRecord
  unfolding cancel_scheduled
  cancel_found i n =
      if not (is_scheduled n.status)
      then raise (conflict "Only scheduled notifications can be cancelled")
      else cancel_scheduled i

  unfoldable pub cancel_notification : ℕ → ℕ → List String → Call NotificationRecord
  unfolding get_notification cancel_found
  cancel_notification i user_id roles = do n ← get_notification i user_id roles; cancel_found i n
