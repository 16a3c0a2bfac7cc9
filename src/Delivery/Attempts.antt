-- ===== src/Delivery/Attempts.antt =====
-- repositories/delivery_attempts.py over the table delivery.delivery_attempts. `Status` and the
-- JSON payload come back from the table as they were stored, so `_to_record` is the identity.
use substy.Base.{
  ℕ, Bool, true, false, ◌&&◌, ◌||◌, not, Option, none, some, [], ◌∷◌, ◌++◌, String, Json, ◌==◌,
  str_eq, if◌then◌else◌, take_chars, find_row, has_row, update_where, Outcome, ok, err, Error,
  postgres, statement, refuse, modify_db, gets, pure, ◌>>=◌,
}
use substy.Delivery.Model.{DeliveryAttemptRecord, pending, sent, failed, dead, Db, Store, Call, Env}

abbrev pub same_id : ℕ → DeliveryAttemptRecord → Bool
same_id attempt_id a = a.id == attempt_id

-- The row of this notification, user and channel.
abbrev pub same_target : ℕ → ℕ → String → DeliveryAttemptRecord → Bool
same_target notification_id user_id channel a =
    a.notification_id == notification_id && a.user_id == user_id && str_eq a.channel channel

-- The CHECK constraint on `channel`.
abbrev pub channel_allowed : String → Bool
channel_allowed c = str_eq c "push" || str_eq c "email" || str_eq c "web"

abbrev pub insert_row : DeliveryAttemptRecord → Db → Db
insert_row a d = record d { delivery_attempts = d.delivery_attempts ++ a ∷ [] }

abbrev pub update_attempt : ℕ → (DeliveryAttemptRecord → DeliveryAttemptRecord) → Db → Db
update_attempt attempt_id f d = record d {
  delivery_attempts = update_where (same_id attempt_id) f d.delivery_attempts;
}

-- INSERT … RETURNING, with the table's constraints: the CHECK on the channel (23514), and the
-- primary key and UNIQUE (notification_id, user_id, channel) (23505).
unfoldable pub insert_attempt : DeliveryAttemptRecord → Call DeliveryAttemptRecord
insert_attempt a s =
    if not (channel_allowed a.channel)
    then refuse "23514" s
    else if has_row (same_id a.id) s.db.delivery_attempts
        || has_row (same_target a.notification_id a.user_id a.channel) s.db.delivery_attempts
    then refuse "23505" s
    else (ok a, record s { db = insert_row a s.db })

-- SELECT … WHERE notification_id = $1 AND user_id = $2 AND channel = $3, then `_to_record`, which
-- fails with a TypeError on None.
unfoldable pub select_target : ℕ → ℕ → String → Call DeliveryAttemptRecord
select_target notification_id user_id channel s =
    elim (find_row (same_target notification_id user_id channel) s.db.delivery_attempts) [
      | some a ↦ (ok a, s)
      | none ↦ (err (Error.runtime_error "TypeError"), s)
    ]

-- `except asyncpg.PostgresError`: a unique violation goes on with the existing row.
unfoldable pub on_insert :
    Call DeliveryAttemptRecord
    → Outcome DeliveryAttemptRecord × Store
    → Outcome (DeliveryAttemptRecord × Bool) × Store
on_insert existing (ok a, s) = (ok (a, true), s)
on_insert existing (err (postgres sqlstate), s) =
    if not (str_eq sqlstate "23505")
    then (err (postgres sqlstate), s)
    else (existing >>= λ a. pure (a, false)) s
on_insert existing (err e, s) = (err e, s)

unfoldable pub create_or_get :
    Env
    → (attempt_id notification_id user_id : ℕ) → String
    → Json
    → Option ℕ
    → Option ℕ
    → String
    → Call (DeliveryAttemptRecord × Bool)
unfolding insert_attempt select_target on_insert
create_or_get env attempt_id notification_id user_id channel payload start end timezone s =
    on_insert (statement (select_target notification_id user_id channel))
      (statement (insert_attempt row) s)
  where
    row : DeliveryAttemptRecord
    row = record {
      id = attempt_id;
      notification_id = notification_id;
      user_id = user_id;
      channel = channel;
      payload = payload;
      quiet_hours_start = start;
      quiet_hours_end = end;
      timezone = timezone;
      status = pending;
      attempt_no = 0;
      last_error_code = none;
      last_error_message = none;
      next_retry_at = none;
      created_at = env.db_now;
      updated_at = env.db_now;
    }

unfoldable pub get_for_update : ℕ → Call (Option DeliveryAttemptRecord)
get_for_update attempt_id =
    statement (gets λ s. find_row (same_id attempt_id) s.db.delivery_attempts)

-- The SET clauses of the three UPDATE statements.
abbrev pub sent_row : Env → DeliveryAttemptRecord → DeliveryAttemptRecord
sent_row env a = record a {
  status = sent;
  updated_at = env.db_now;
  next_retry_at = none;
  last_error_code = none;
  last_error_message = none;
}

abbrev pub delayed_row : Env → ℕ → String → String → DeliveryAttemptRecord → DeliveryAttemptRecord
delayed_row env next_retry_at error_code error_message a = record a {
  status = failed;
  last_error_code = some error_code;
  last_error_message = some (take_chars 512 error_message);
  next_retry_at = some next_retry_at;
  updated_at = env.db_now;
}

abbrev pub failed_row :
    Env → ℕ → String → String → Option ℕ → Bool → DeliveryAttemptRecord → DeliveryAttemptRecord
failed_row env attempt_no error_code error_message next_retry_at is_dead a = record a {
  status = if is_dead then dead else failed;
  attempt_no = attempt_no;
  last_error_code = some error_code;
  last_error_message = some (take_chars 512 error_message);
  next_retry_at = next_retry_at;
  updated_at = env.db_now;
}

unfoldable pub mark_sent : Env → ℕ → Call (Unit {0})
mark_sent env attempt_id = statement (modify_db (update_attempt attempt_id (sent_row env)))

unfoldable pub mark_delayed :
    Env → (attempt_id next_retry_at : ℕ) → String → String → Call (Unit {0})
mark_delayed env attempt_id next_retry_at error_code error_message =
    statement (
      modify_db
        (update_attempt attempt_id (delayed_row env next_retry_at error_code error_message)))

unfoldable pub mark_failed :
    Env → (attempt_id attempt_no : ℕ) → String → String → Option ℕ → Bool → Call (Unit {0})
mark_failed env attempt_id attempt_no error_code error_message next_retry_at is_dead = statement (
    modify_db (
      update_attempt attempt_id
        (failed_row env attempt_no error_code error_message next_retry_at is_dead)))
