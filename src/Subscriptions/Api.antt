-- ===== src/Subscriptions/Api.antt =====
-- api/subscriptions.py, api/internal.py and api/topics.py: the endpoints, for requests whose bodies
-- have passed the validators of schemas/. A UUID is answered as the number that it is.
use substy.Base.{
  ℕ, Bool, Option, none, some, List, map, String, if◌then◌else◌, pure, lift, ◌>>=◌, ◌>>◌,
}
use substy.Entry.{Reply, Body, within, replies}
use substy.Pagination.{Codec}
use substy.Subscriptions.Model.{
  TopicRecord, SubscriptionRecord, SubscriberRecord, SubscriptionPreferencesPatchRequest, Call, Env,
}
use substy.Subscriptions.Service
use substy.Subscriptions.Topics

pub record SubscriptionPreferencesResponse : Type 0 where
  pub channels : List String
  -- the start and the end
  pub quiet_hours : Option (ℕ × ℕ)
  pub timezone : String

pub record SubscriptionResponse : Type 0 where
  pub id : ℕ
  pub topic_id : ℕ
  pub is_active : Bool
  pub preferences : SubscriptionPreferencesResponse

pub record Page (A : Type 0) : Type 0 where
  pub items : List A
  pub next_cursor : Option String

pub record TopicResponse : Type 0 where
  pub id : ℕ
  pub key : String
  pub name : String
  pub description : Option String

pub record UpdateSubscriptionRequest : Type 0 where
  pub is_active : Option Bool
  pub preferences : Option SubscriptionPreferencesPatchRequest

-- Both ends or none: a time of day counts as true, midnight too.
abbrev pub quiet_hours_of : Option ℕ → Option ℕ → Option (ℕ × ℕ)
quiet_hours_of (some start) (some end) = some (start, end)
quiet_hours_of _ _ = none

abbrev pub to_subscription_response : SubscriptionRecord → SubscriptionResponse
to_subscription_response subscription = record {
  id = subscription.id;
  topic_id = subscription.topic_id;
  is_active = subscription.is_active;
  preferences = record {
    channels = subscription.preferences.channels;
    quiet_hours =
        quiet_hours_of subscription.preferences.quiet_hours_start
          subscription.preferences.quiet_hours_end;
    timezone = subscription.preferences.timezone;
  };
}

abbrev pub to_topic_response : TopicRecord → TopicResponse
to_topic_response topic = record {
  id = topic.id;
  key = topic.key;
  name = topic.name;
  description = topic.description;
}

module _ (env : Env) where
  unfoldable pub my_subscriptions :
      Codec → ℕ → ℕ → Option String → Call (Reply (Page SubscriptionResponse))
  my_subscriptions codec user_id limit cursor = do
    limit' ← lift (within 1 500 limit)
    (subscriptions, next_cursor) ← Service.list_my env codec user_id limit' cursor
    pure (
        replies 200 (record {
          items = map to_subscription_response subscriptions;
          next_cursor = next_cursor;
        }))

  -- 201 for a subscription that is new, 200 for one that was there.
  unfoldable pub subscribe : ℕ → ℕ → Call (Reply SubscriptionResponse)
  subscribe user_id topic_id = do
    (subscription, created) ← Service.subscribe env user_id topic_id
    pure (replies (if created then 201 else 200) (to_subscription_response subscription))

  unfoldable pub unsubscribe : ℕ → ℕ → Call (Reply (Unit {0}))
  unsubscribe user_id subscription_id = do
    Service.unsubscribe env user_id subscription_id
    pure (record { status = 204; body = Body.empty })

  unfoldable pub update_subscription :
      ℕ → ℕ → UpdateSubscriptionRequest → Call (Reply SubscriptionResponse)
  update_subscription user_id subscription_id payload = do
    updated ←
        Service.update_subscription env user_id subscription_id payload.is_active
          payload.preferences
    pure (replies 200 (to_subscription_response updated))

  -- api/internal.py
  unfoldable pub list_topic_subscribers :
      Codec → ℕ → ℕ → Option String → Call (Reply (Page SubscriberRecord))
  list_topic_subscribers codec topic_id limit cursor = do
    limit' ← lift (within 1 500 limit)
    (subscribers, next_cursor) ← Service.list_internal_subscribers env codec topic_id limit' cursor
    pure (replies 200 (record { items = subscribers; next_cursor = next_cursor }))

  -- api/topics.py
  unfoldable pub create_topic :
      List String → String → String → Option String → Call (Reply TopicResponse)
  create_topic roles key name description = do
    topic ← Topics.create_topic env roles key name description
    pure (replies 201 (to_topic_response topic))

unfoldable pub get_topic : ℕ → Call (Reply TopicResponse)
get_topic topic_id = do
  topic ← Topics.get_topic topic_id
  pure (replies 200 (to_topic_response topic))

unfoldable pub list_topics :
    (String → TopicRecord → Bool)
    → Codec
    → Option String
    → ℕ
    → Option String
    → Call (Reply (Page TopicResponse))
list_topics matches codec q limit cursor = do
  limit' ← lift (within 1 500 limit)
  (topics, next_cursor) ← Topics.list_topics matches codec q limit' cursor
  pure (replies 200 (record { items = map to_topic_response topics; next_cursor = next_cursor }))
