-- ===== src/Notifications/Repository.antt =====
-- repositories/notifications.py over the table notifications.notifications. Rows come back from the
-- table as they were stored, so `_to_model` is the identity.
use substy.Base.{
  ℕ, Bool, true, false, ◌&&◌, ◌||◌, not, Option, none, some, List, [], ◌∷◌, ◌++◌, String, map, take,
  ◌==◌, ltb, leb, str_eq, if◌then◌else◌, find_row, has_row, rows_where, update_where, count_where,
  sort_by, ok, statement, refuse, gets, pure,
}
use substy.Notifications.Model.{
  NotificationRecord, Status, created, scheduled, queued, cancelled, Call, Env,
}

abbrev pub notification_id : NotificationRecord → ℕ
notification_id n = n.id

abbrev pub same_id : ℕ → NotificationRecord → Bool
same_id i n = n.id == i

abbrev pub key_matches : String → Option String → Bool
key_matches key none = false
key_matches key (some k) = str_eq k key

-- WHERE created_by = $1 AND idempotency_key = $2
abbrev pub same_key : ℕ → String → NotificationRecord → Bool
same_key created_by key n = n.created_by == created_by && key_matches key n.idempotency_key

abbrev pub is_scheduled : Status → Bool
is_scheduled scheduled = true
is_scheduled created = false
is_scheduled queued = false
is_scheduled cancelled = false

-- The partial unique index on (created_by, idempotency_key).
abbrev pub key_taken : ℕ → Option String → List NotificationRecord → Bool
key_taken created_by none ns = false
key_taken created_by (some key) ns = has_row (same_key created_by key) ns

-- INSERT … RETURNING, with the primary key and the unique index (23505).
unfoldable pub create : NotificationRecord → Call NotificationRecord
create n = statement λ s.
    if has_row (same_id n.id) s.db.notifications
      || key_taken n.created_by n.idempotency_key s.db.notifications
    then refuse "23505" s
    else (ok n, record s { db = record s.db { notifications = s.db.notifications ++ n ∷ [] } })

unfoldable pub get_by_id : ℕ → Call (Option NotificationRecord)
get_by_id i = statement (gets λ s. find_row (same_id i) s.db.notifications)

unfoldable pub get_by_idempotency_key : ℕ → String → Call (Option NotificationRecord)
get_by_idempotency_key created_by key =
    statement (gets λ s. find_row (same_key created_by key) s.db.notifications)

-- ORDER BY scheduled_at ASC, id ASC; NULL comes last.
abbrev pub time_before : Option ℕ → Option ℕ → Bool → Bool
time_before none none tie = tie
time_before none (some y) tie = false
time_before (some x) none tie = true
time_before (some x) (some y) tie = ltb x y || (x == y && tie)

abbrev pub scheduled_before : NotificationRecord → NotificationRecord → Bool
scheduled_before m n = time_before m.scheduled_at n.scheduled_at (leb m.id n.id)

-- scheduled_at <= now(), which is not true of NULL
abbrev pub time_due : ℕ → Option ℕ → Bool
time_due now none = false
time_due now (some at) = leb at now

abbrev pub is_due : ℕ → NotificationRecord → Bool
is_due now n = is_scheduled n.status && time_due now n.scheduled_at

-- FOR UPDATE SKIP LOCKED passes over the rows that other sessions have locked.
unfoldable pub lock_due_scheduled_batch : Env → ℕ → Call (List NotificationRecord)
lock_due_scheduled_batch env limit = statement (
    gets λ s. take limit (
      sort_by scheduled_before
        (rows_where (λ n. is_due env.db_now n && not (env.locked n.id)) s.db.notifications)))

-- id = ANY(ids)
unfoldable pub any_id : List ℕ → ℕ → Bool
any_id [] i = false
any_id (j ∷ js) i = j == i || any_id js i

abbrev pub to_queue : List ℕ → NotificationRecord → Bool
to_queue ids n = any_id ids n.id && is_scheduled n.status

abbrev pub with_status : Env → Status → NotificationRecord → NotificationRecord
with_status env status n = record n { status = status; updated_at = env.db_now }

-- The UPDATE … RETURNING, ordered; an empty list is not sent.
unfoldable pub mark_queued_by_ids : Env → List ℕ → Call (List NotificationRecord)
unfolding any_id
mark_queued_by_ids env [] = pure []
mark_queued_by_ids env (i ∷ is) = statement λ s. (
  ok (
      sort_by scheduled_before
        (map (with_status env queued) (rows_where (to_queue (i ∷ is)) s.db.notifications))),
  record s {
    db = record s.db {
      notifications = update_where (to_queue (i ∷ is)) (with_status env queued) s.db.notifications;
    };
  },
)

-- UPDATE … WHERE id = $1 AND status = 'scheduled' RETURNING …
abbrev pub to_cancel : ℕ → NotificationRecord → Bool
to_cancel i n = n.id == i && is_scheduled n.status

unfoldable pub cancel_rows : Env → ℕ → Option NotificationRecord → Call (Option NotificationRecord)
cancel_rows env i none s = (ok none, s)
cancel_rows env i (some n) s = (
  ok (some (with_status env cancelled n)),
  record s {
    db = record s.db {
      notifications = update_where (to_cancel i) (with_status env cancelled) s.db.notifications;
    };
  },
)

unfoldable pub cancel_if_scheduled : Env → ℕ → Call (Option NotificationRecord)
unfolding cancel_rows
cancel_if_scheduled env i =
    statement λ s. cancel_rows env i (find_row (to_cancel i) s.db.notifications) s

unfoldable pub count_scheduled_backlog : Call ℕ
count_scheduled_backlog =
    statement (gets λ s. count_where (λ n. is_scheduled n.status) s.db.notifications)

unfoldable pub count_scheduled_due : Env → Call ℕ
count_scheduled_due env = statement (gets λ s. count_where (is_due env.db_now) s.db.notifications)
