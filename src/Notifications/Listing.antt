-- ===== src/Notifications/Listing.antt =====
-- The listing of a user's notifications (services/notifications.py, `list_my_notifications`, and
-- repositories/notifications.py, `list_by_user`).
pub mod Own
use substy.Base.{
  ℕ, ◌+◌, Bool, true, false, ◌&&◌, ◌||◌, Option, none, some, List, [], ◌∷◌, String, take, ltb, ◌==◌,
  str_eq, if◌then◌else◌, rows_where, sort_by, Outcome, ok, err, validation_error, statement, gets,
  pure, lift, ◌>>=◌, ◌>>◌,
}
use substy.Pagination.{Codec, decode_cursor, cursor_pair, notifications_cursor, cut_page}
use substy.Notifications.Model.{
  NotificationRecord, Status, created, scheduled, queued, cancelled, Store, Call,
}

-- A status as the column holds it.
abbrev pub status_text : Status → String
status_text created = "created"
status_text scheduled = "scheduled"
status_text queued = "queued"
status_text cancelled = "cancelled"

abbrev pub status_is : Option String → NotificationRecord → Bool
status_is none n = true
status_is (some status) n = str_eq (status_text n.status) status

abbrev pub topic_is : Option ℕ → NotificationRecord → Bool
topic_is none n = true
topic_is (some topic_id) n = n.topic_id == topic_id

-- (x, y) < (u, v)
abbrev pub pair_less : ℕ → ℕ → ℕ → ℕ → Bool
pair_less x y u v = ltb x u || (x == u && ltb y v)

abbrev pub before_cursor : Option (ℕ × ℕ) → NotificationRecord → Bool
before_cursor none n = true
before_cursor (some (created_at, id)) n = pair_less n.created_at n.id created_at id

-- The WHERE clause, from the filters that are given.
abbrev pub is_wanted : ℕ → Option (ℕ × ℕ) → Option String → Option ℕ → NotificationRecord → Bool
is_wanted created_by cursor status topic_id n =
    n.created_by == created_by
    && status_is status n
    && topic_is topic_id n
    && before_cursor cursor n

-- ORDER BY created_at DESC, id DESC
unfoldable pub list_by_user :
    ℕ → ℕ → Option (ℕ × ℕ) → Option String → Option ℕ → Call (List NotificationRecord)
list_by_user created_by limit cursor status topic_id = statement (
    gets λ s. take limit (
      sort_by (λ a b. pair_less b.created_at b.id a.created_at a.id)
        (rows_where (is_wanted created_by cursor status topic_id) s.db.notifications)))

-- `status is not None and status not in self._allowed_status_filters`
unfoldable pub check_status : Option String → Outcome (Unit {0})
check_status none = ok tt
check_status (some status) =
    if str_eq status "created"
      || str_eq status "scheduled"
      || str_eq status "queued"
      || str_eq status "cancelled"
    then ok tt
    else err (validation_error "Invalid status filter")

unfoldable pub list_my_notifications :
    Codec
    → ℕ
    → ℕ
    → Option String
    → Option String
    → Option ℕ
    → Call (List NotificationRecord × Option String)
unfolding list_by_user check_status
list_my_notifications codec user_id limit cursor status topic_id = do
  lift (check_status status)
  cursor_data ← lift (decode_cursor codec cursor)
  pair ← lift (cursor_pair codec "created_at" codec.parse_time cursor_data)
  rows ← list_by_user user_id (limit + 1) pair status topic_id
  pure (
      cut_page (λ (n : NotificationRecord). notifications_cursor codec n.created_at n.id) limit
        rows)
