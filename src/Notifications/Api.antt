-- ===== src/Notifications/Api.antt =====
-- api/notifications.py: the endpoints, for requests whose bodies have passed the validators of
-- schemas/notifications.py. A UUID is answered as the number that it is.
use substy.Base.{ℕ, Option, List, map, String, Json, Datetime, if◌then◌else◌, pure, lift, ◌>>=◌}
use substy.Entry.{Reply, within, replies}
use substy.Pagination.{Codec}
use substy.Notifications.Model.{NotificationRecord, Status, Call, Env}
use substy.Notifications.Service
use substy.Notifications.Listing

pub record CreateNotificationRequest : Type 0 where
  pub topic_id : ℕ
  pub payload : Json
  pub scheduled_at : Option Datetime
  pub idempotency_key : Option String

pub record NotificationResponse : Type 0 where
  pub id : ℕ
  pub topic_id : ℕ
  pub payload : Json
  pub status : Status
  pub scheduled_at : Option ℕ
  pub created_at : ℕ

pub record ListNotificationsResponse : Type 0 where
  pub items : List NotificationResponse
  pub next_cursor : Option String

abbrev pub response_of : NotificationRecord → NotificationResponse
response_of notification = record {
  id = notification.id;
  topic_id = notification.topic_id;
  payload = notification.payload;
  status = notification.status;
  scheduled_at = notification.scheduled_at;
  created_at = notification.created_at;
}

module _ (env : Env) where
  -- 201 for a notification that is new, 200 for one that was there.
  unfoldable pub create_notification :
      CreateNotificationRequest → ℕ → String → Call (Reply NotificationResponse)
  create_notification payload user_id request_id = do
    (notification, created) ←
        Service.create_notification env user_id payload.topic_id payload.payload
          payload.scheduled_at payload.idempotency_key request_id
    pure (replies (if created then 201 else 200) (response_of notification))

  unfoldable pub list_my_notifications :
      Codec
      → ℕ
      → ℕ
      → Option String
      → Option String
      → Option ℕ
      → Call (Reply ListNotificationsResponse)
  list_my_notifications codec user_id limit cursor status topic_id = do
    limit' ← lift (within 1 200 limit)
    (rows, next_cursor) ← Listing.list_my_notifications codec user_id limit' cursor status topic_id
    pure (replies 200 (record { items = map response_of rows; next_cursor = next_cursor }))

  unfoldable pub get_notification : ℕ → ℕ → List String → Call (Reply NotificationResponse)
  get_notification notification_id user_id roles = do
    notification ← Service.get_notification env notification_id user_id roles
    pure (replies 200 (response_of notification))

  unfoldable pub cancel_notification : ℕ → ℕ → List String → Call (Reply NotificationResponse)
  cancel_notification notification_id user_id roles = do
    notification ← Service.cancel_notification env notification_id user_id roles
    pure (replies 200 (response_of notification))
