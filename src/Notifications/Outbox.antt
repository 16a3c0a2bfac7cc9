-- ===== src/Notifications/Outbox.antt =====
-- repositories/outbox.py over the table notifications.outbox_events.
use substy.Base.{
  ℕ, ◌+◌, Bool, ◌&&◌, not, none, some, List, [], ◌∷◌, ◌++◌, String, take, take_chars, ◌==◌, leb,
  if◌then◌else◌, has_row, rows_where, update_where, count_where, sort_by, is_some, ok, statement,
  refuse, modify_db, gets,
}
use substy.Notifications.Model.{OutboxEventRecord, EventPayload, EventHeaders, Db, Call, Env}

abbrev pub event_id : OutboxEventRecord → ℕ
event_id e = e.id

abbrev pub same_event : ℕ → OutboxEventRecord → Bool
same_event i e = e.id == i

abbrev pub new_event :
    Env → ℕ → String → ℕ → String → EventPayload → EventHeaders → OutboxEventRecord
new_event env id aggregate_type aggregate_id event_type payload headers = record {
  id = id;
  aggregate_type = aggregate_type;
  aggregate_id = aggregate_id;
  event_type = event_type;
  payload = payload;
  headers = headers;
  created_at = env.db_now;
  published_at = none;
  publish_attempts = 0;
  last_error = none;
}

abbrev pub insert_event : OutboxEventRecord → Db → Db
insert_event e d = record d { outbox_events = d.outbox_events ++ e ∷ [] }

-- INSERT … RETURNING, with the primary key (23505).
unfoldable pub create_event : OutboxEventRecord → Call OutboxEventRecord
create_event e = statement λ s.
    if has_row (same_event e.id) s.db.outbox_events
    then refuse "23505" s
    else (ok e, record s { db = insert_event e s.db })

abbrev pub is_unpublished : OutboxEventRecord → Bool
is_unpublished e = not (is_some e.published_at)

-- ORDER BY created_at ASC LIMIT … FOR UPDATE SKIP LOCKED
unfoldable pub lock_unpublished_batch : Env → ℕ → Call (List OutboxEventRecord)
lock_unpublished_batch env batch_size = statement (
    gets λ s. take batch_size (
      sort_by (λ e f. leb e.created_at f.created_at)
        (rows_where (λ e. is_unpublished e && not (env.locked e.id)) s.db.outbox_events)))

abbrev pub update_event : ℕ → (OutboxEventRecord → OutboxEventRecord) → Db → Db
update_event i f d = record d { outbox_events = update_where (same_event i) f d.outbox_events }

abbrev pub published_row : Env → OutboxEventRecord → OutboxEventRecord
published_row env e = record e {
  published_at = some env.db_now;
  publish_attempts = e.publish_attempts + 1;
  last_error = none;
}

abbrev pub failed_row : String → OutboxEventRecord → OutboxEventRecord
failed_row error_message e = record e {
  publish_attempts = e.publish_attempts + 1;
  last_error = some (take_chars 2000 error_message);
}

unfoldable pub mark_published : Env → ℕ → Call (Unit {0})
mark_published env i = statement (modify_db (update_event i (published_row env)))

unfoldable pub mark_failed : ℕ → String → Call (Unit {0})
mark_failed i error_message = statement (modify_db (update_event i (failed_row error_message)))

unfoldable pub count_unpublished : Call ℕ
count_unpublished = statement (gets λ s. count_where is_unpublished s.db.outbox_events)
