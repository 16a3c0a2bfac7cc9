-- ===== src/Delivery/Fanout/Wanted.antt =====
-- What a fan-out should create, with no database: one attempt for each subscriber with a valid
-- user id and each of the subscriber's channels that the service delivers (services/fanout.py).
use substy.Base.{
  ℕ, Option, none, some, List, [], ◌∷◌, ◌++◌, String, Json, ok, ◌≡◌, true, false, truthy?, member,
  if◌then◌else◌, suc,
}
use substy.Channels.{normalize_channels}
use substy.Delivery.Model.{DeliveryAttemptRecord, pending, Job, send, Env}
use substy.Delivery.Fanout.{
  NotificationCreatedEvent, SubscriberItem, SubscribersPage, FanoutService, settings_channels,
  timezone_of,
}

pub record Wanted : Type 0 where
  pub notification_id : ℕ
  pub user_id : ℕ
  pub channel : String
  pub payload : Json
  pub quiet_hours_start : Option ℕ
  pub quiet_hours_end : Option ℕ
  pub timezone : String

-- The pending row of a wanted attempt, and its job.
abbrev pub pending_row : Env → ℕ × Wanted → DeliveryAttemptRecord
pending_row env (id, w) = record {
  id = id;
  notification_id = w.notification_id;
  user_id = w.user_id;
  channel = w.channel;
  payload = w.payload;
  quiet_hours_start = w.quiet_hours_start;
  quiet_hours_end = w.quiet_hours_end;
  timezone = w.timezone;
  status = pending;
  attempt_no = 0;
  last_error_code = none;
  last_error_message = none;
  next_retry_at = none;
  created_at = env.db_now;
  updated_at = env.db_now;
}

abbrev pub send_job : ℕ × Wanted → Job
send_job (id, w) = send w.channel id

module _ (svc : FanoutService) (event : NotificationCreatedEvent) where
  abbrev pub wanted_row : SubscriberItem → ℕ → String → Wanted
  wanted_row sub user_id channel = record {
    notification_id = event.notification_id;
    user_id = user_id;
    channel = channel;
    payload = event.payload;
    quiet_hours_start = sub.quiet_hours_start;
    quiet_hours_end = sub.quiet_hours_end;
    timezone = timezone_of sub;
  }

  unfoldable pub wanted_channels : SubscriberItem → ℕ → List String → List Wanted
  wanted_channels sub user_id [] = []
  wanted_channels sub user_id (channel ∷ channels) =
      let rest = wanted_channels sub user_id channels in
      if member channel (settings_channels svc) then wanted_row sub user_id channel ∷ rest else rest

  unfoldable pub wanted_subscriber : SubscriberItem → List Wanted
  unfolding wanted_channels
  wanted_subscriber sub = elim (svc.parse_uuid sub.user_id) [
    | none ↦ []
    | some user_id ↦ wanted_channels sub user_id (normalize_channels svc.lower sub.channels)
  ]

  unfoldable pub wanted : List SubscriberItem → List Wanted
  unfolding wanted_subscriber
  wanted [] = []
  wanted (sub ∷ subs) = wanted_subscriber sub ++ wanted subs

-- The subscribers of a topic from a cursor on, page by page, in `n` pages.
pub data Pages (svc : FanoutService) (topic_id : ℕ)
    : ℕ → Option String → List SubscriberItem → Type 0 where
  last_page :
      {cursor : Option String} (page : SubscribersPage)
      → svc.fetch_page topic_id cursor ≡ ok page
      → truthy? page.next_cursor ≡ false
      → Pages svc topic_id 1 cursor page.items
  more_pages :
      {n : ℕ} {cursor : Option String} {rest : List SubscriberItem} (page : SubscribersPage)
      → svc.fetch_page topic_id cursor ≡ ok page
      → truthy? page.next_cursor ≡ true
      → Pages svc topic_id n page.next_cursor rest
      → Pages svc topic_id (suc n) cursor (page.items ++ rest)
