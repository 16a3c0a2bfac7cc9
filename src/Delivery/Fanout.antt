-- ===== src/Delivery/Fanout.antt =====
-- services/fanout.py and services/subscriptions_fetcher.py: FanoutService, which turns a
-- notification.created event into one delivery attempt for each subscriber and channel.
pub mod Wanted
pub mod Refines
pub mod Process
pub mod Paging
pub mod Duplicates
pub mod Returns
use substy.Base.{
  ℕ, zero, suc, ◌+◌, Bool, true, false, not, Option, none, some, List, [], ◌∷◌, ◌++◌, String, Json,
  strip, truthy, truthy?, member, split, map, if◌then◌else◌, Outcome, ok, err, Error, out_of_fuel,
  State, Action, pure, raise, lift, transaction, ◌>>=◌, ◌>>◌,
}
use substy.Channels.{normalize_channels}
use substy.Delivery.Model.{DeliveryAttemptRecord, Job, send, Store, Call, Env}
use substy.Delivery.Metrics.{Counters, add_count, inc_attempts_created, inc_jetstream_processed}
use substy.Delivery.Attempts.{create_or_get}
use substy.Delivery.Processed.{try_mark_processed}
use substy.Delivery.Effects.{uuid4, update_metrics, enqueue_job}

-- schemas/events.py, NotificationCreatedEvent
pub record NotificationCreatedEvent : Type 0 where
  pub event_id : ℕ
  pub notification_id : ℕ
  pub topic_id : ℕ
  pub created_by : ℕ
  pub payload : Json
  pub scheduled_at : Option ℕ
  pub created_at : ℕ

-- schemas/subscriptions.py
pub record SubscriberItem : Type 0 where
  pub user_id : String
  pub subscription_id : String
  pub channels : List String
  pub quiet_hours_start : Option ℕ
  pub quiet_hours_end : Option ℕ
  pub timezone : String

pub record SubscribersPage : Type 0 where
  pub items : List SubscriberItem
  pub next_cursor : Option String

-- The service's settings and environment. `fetch_page` is the validated answer of the subscriptions
-- service for a topic and a cursor, `parse_uuid` is `uuid.UUID(text)` (`none`: ValueError), and
-- `lower` is `str.lower`.
pub record FanoutService : Type 0 where
  pub env : Env
  pub delivery_channels : String
  pub fetch_page : ℕ → Option String → Outcome SubscribersPage
  pub parse_uuid : String → Option ℕ
  pub lower : String → String

-- core/settings.py: the pieces of DELIVERY_CHANNELS, stripped and in lower case, without empty ones.
unfoldable pub clean_pieces : (String → String) → List String → List String
clean_pieces lower [] = []
clean_pieces lower (ch ∷ chs) =
    let rest = clean_pieces lower chs in if truthy (strip ch) then lower (strip ch) ∷ rest else rest

unfoldable pub settings_channels : FanoutService → List String
unfolding clean_pieces
settings_channels svc = clean_pieces svc.lower (split b',' svc.delivery_channels)

-- `subscriber.timezone.strip() if subscriber.timezone else "UTC"`
abbrev pub timezone_of : SubscriberItem → String
timezone_of sub = if truthy sub.timezone then strip sub.timezone else "UTC"

module _ (svc : FanoutService) (event : NotificationCreatedEvent) where
  open svc use {env, lower}

  -- The body of the loop over a subscriber's channels.
  unfoldable pub fan_channel : SubscriberItem → ℕ → String → Counters → Call Counters
  unfolding settings_channels
  fan_channel sub user_id channel counts =
      if not (member channel (settings_channels svc)) then pure counts else (do
        attempt_id ← uuid4 env
        (attempt, created) ←
            create_or_get env attempt_id event.notification_id user_id channel event.payload
              sub.quiet_hours_start sub.quiet_hours_end (timezone_of sub)
        enqueue_job env (send channel attempt.id)
        pure (if created then add_count channel 1 counts else counts))

  unfoldable pub fan_channels : SubscriberItem → ℕ → List String → Counters → Call Counters
  unfolding fan_channel
  fan_channels sub user_id [] counts = pure counts
  fan_channels sub user_id (channel ∷ channels) counts =
      fan_channel sub user_id channel counts >>= fan_channels sub user_id channels

  -- The body of the loop over the subscribers: an invalid user_id or an empty list of channels is
  -- skipped (`_normalize_channels` of no channel is empty, so that `continue` needs no test).
  unfoldable pub fan_subscriber : SubscriberItem → Counters → Call Counters
  unfolding fan_channels
  fan_subscriber sub counts = elim (svc.parse_uuid sub.user_id) [
    | none ↦ pure counts
    | some user_id ↦ fan_channels sub user_id (normalize_channels lower sub.channels) counts
  ]

  unfoldable pub fan_subscribers : List SubscriberItem → Counters → Call Counters
  unfolding fan_subscriber
  fan_subscribers [] counts = pure counts
  fan_subscribers (sub ∷ subs) counts = fan_subscriber sub counts >>= fan_subscribers subs

  -- `async for subscriber in self._fetcher.iter_subscribers(...)`: the generator fetches a page when
  -- the one before is used up. `fuel` bounds the number of pages.
  unfoldable pub fan_pages : ℕ → Option String → Counters → Call Counters
  unfolding fan_subscribers
  fan_pages zero cursor counts = raise out_of_fuel
  fan_pages (suc fuel) cursor counts = do
    page ← lift (svc.fetch_page event.topic_id cursor)
    counts' ← fan_subscribers page.items counts
    if truthy? page.next_cursor then fan_pages fuel page.next_cursor counts' else pure counts'

  -- `for channel, value in created_attempts_by_channel.items()`
  unfoldable pub count_created : Counters → Call (Unit {0})
  count_created [] = pure tt
  count_created ((channel, value) ∷ counts) =
      update_metrics (inc_attempts_created channel value) >> count_created counts

  unfoldable pub process_new : ℕ → Call Bool
  unfolding fan_pages count_created
  process_new fuel = do
    counts ← fan_pages fuel none []
    count_created counts
    update_metrics inc_jetstream_processed
    pure true

  unfoldable pub process_notification_created : ℕ → String → Call Bool
  unfolding process_new
  process_notification_created fuel subject = transaction (do
    is_new ← try_mark_processed env event.event_id subject
    if not is_new then pure false else process_new fuel)
