-- ===== src/Subscriptions/Service.antt =====
-- services/subscriptions.py: SubscriptionsService.
pub mod Quiet
pub mod Pages
pub mod Active
pub mod Twice
use substy.Base.{
  ℕ, ◌+◌, Bool, true, false, not, ◌&&◌, Option, none, some, List, [], ◌∷◌, String, strip, truthy,
  ◌==◌, if◌then◌else◌, is_some, find_row, Outcome, ok, err, Error, validation_error, not_found,
  zone_not_found, State, statement, transaction, gets, pure, raise, lift, ◌>>=◌, ◌>>◌,
}
use substy.Channels
use substy.Subscriptions.Model.{
  TopicRecord, SubscriptionRecord, SubscriptionPreferencesRecord, SubscriberRecord,
  SubscriptionPreferencesPatchRequest, Db, World, Store, Call, Env,
}
use substy.Subscriptions.Repository.{
  topic_id_is, get_by_user_topic, get_by_id_for_user, create, update_active, upsert_preferences,
  list_for_user, list_active_subscribers,
}
use substy.Pagination.{
  Codec, decode_cursor, cursor_pair, subscriptions_cursor, subscribers_cursor, cut_page,
}

unfoldable pub uuid4 : Env → Call ℕ
uuid4 env s =
    (ok (env.uuid s.world.draws), record s { world = record { draws = s.world.draws + 1 } })

-- What other sessions commit between two statements outside a transaction.
abbrev pub meanwhile : Env → Call (Unit {0})
meanwhile env s = (ok tt, record s { db = env.others s.db })

-- repositories/topics.py
unfoldable pub get_topic_by_id : ℕ → Call (Option TopicRecord)
get_topic_by_id topic_id = statement (gets λ s. find_row (topic_id_is topic_id) s.db.topics)

-- `if x is None: raise`
abbrev pub required : {A : Type 0} → String → Option A → Call A
required message none = raise (not_found message)
required message (some a) = pure a

unfoldable pub normalize_channels : Env → List String → Outcome (List String)
normalize_channels env channels = elim (Channels.normalize_channels env.lower channels) [
  | [] ↦ err (validation_error "channels must not be empty")
  | normalized ↦ ok normalized
]

-- Only an unknown name is caught: what else `ZoneInfo` raises goes through.
unfoldable pub validate_timezone : Env → String → Outcome String
validate_timezone env name =
    if not (truthy (strip name))
    then err (validation_error "timezone must not be empty")
    else looked_up (env.zone_info (strip name))
  where
    looked_up : Outcome (Unit {0}) → Outcome String
    looked_up (ok _) = ok (strip name)
    looked_up (err zone_not_found) = err (validation_error "Invalid timezone")
    looked_up (err e) = err e

-- The preferences that an update aims at.
pub record Target : Type 0 where
  pub channels : List String
  pub timezone : String
  pub quiet_start : Option ℕ
  pub quiet_end : Option ℕ

abbrev pub target_channels : Env → List String → Option (List String) → Outcome (List String)
target_channels env old none = ok old
target_channels env old (some channels) = normalize_channels env channels

abbrev pub target_timezone : Env → String → Option String → Outcome String
target_timezone env old none = ok old
target_timezone env old (some name) = validate_timezone env name

-- Equal ends switch the quiet hours off.
abbrev pub target_quiet : Option ℕ → Option ℕ → Option (ℕ × ℕ) → Option ℕ × Option ℕ
target_quiet start end none = (start, end)
target_quiet start end (some (s, e)) = if s == e then (none, none) else (some s, some e)

abbrev pub target_of : SubscriptionPreferencesRecord → Target
target_of p = record {
  channels = p.channels;
  timezone = p.timezone;
  quiet_start = p.quiet_hours_start;
  quiet_end = p.quiet_hours_end;
}

unfoldable pub patched :
    Env → SubscriptionPreferencesRecord → SubscriptionPreferencesPatchRequest → Outcome Target
unfolding normalize_channels validate_timezone
patched env p patch = elim (target_channels env p.channels patch.channels) [
  | err e ↦ err e
  | ok channels ↦ elim (target_timezone env p.timezone patch.timezone) [
    | err e ↦ err e
    | ok timezone ↦
        let (start, end) = target_quiet p.quiet_hours_start p.quiet_hours_end patch.quiet_hours in
        ok (record {
          channels = channels;
          timezone = timezone;
          quiet_start = start;
          quiet_end = end;
        })
  ]
]

abbrev pub target :
    Env
    → SubscriptionPreferencesRecord
    → Option SubscriptionPreferencesPatchRequest
    → Outcome Target
target env p none = ok (target_of p)
target env p (some patch) = patched env p patch

-- One of the two ends without the other.
abbrev pub half_set : Option ℕ → Option ℕ → Bool
half_set none none = false
half_set none (some e) = true
half_set (some s) none = true
half_set (some s) (some e) = false

abbrev pub same_flag : Bool → Bool → Bool
same_flag true b = b
same_flag false b = not b

abbrev pub target_active : Bool → Option Bool → Bool
target_active old none = old
target_active old (some is_active) = is_active

module _ (env : Env) where
  -- `subscribe` with the subscription that is there, if any.
  unfoldable pub subscribe_existing :
      ℕ → ℕ → Option SubscriptionRecord → Call (SubscriptionRecord × Bool)
  unfolding uuid4
  subscribe_existing user_id topic_id (some existing) =
      if existing.is_active then pure (existing, false) else (do
        meanwhile env
        updated ← update_active env existing.id user_id true
        found ← required "Subscription not found" updated
        pure (found, false))
  subscribe_existing user_id topic_id none = do
    meanwhile env
    created ←
        transaction (do subscription_id ← uuid4 env; create env subscription_id user_id topic_id)
    pure (created, true)

  unfoldable pub subscribe : ℕ → ℕ → Call (SubscriptionRecord × Bool)
  unfolding get_topic_by_id subscribe_existing
  subscribe user_id topic_id = do
    topic ← get_topic_by_id topic_id
    required "Topic not found" topic
    meanwhile env
    existing ← get_by_user_topic user_id topic_id
    subscribe_existing user_id topic_id existing

  unfoldable pub unsubscribe : ℕ → ℕ → Call (Unit {0})
  unsubscribe user_id subscription_id = do
    found ← get_by_id_for_user subscription_id user_id
    existing ← required "Subscription not found" found
    (if existing.is_active
        then (meanwhile env >> (update_active env subscription_id user_id false >> pure tt))
        else pure tt)

  abbrev pub write_active : ℕ → ℕ → Bool → Bool → Call (Unit {0})
  write_active user_id subscription_id old new = if same_flag new old then pure tt else (do
    updated ← update_active env subscription_id user_id new
    found ← required "Subscription not found" updated
    pure tt)

  abbrev pub write_preferences :
      ℕ → Target → Option SubscriptionPreferencesPatchRequest → Call (Unit {0})
  write_preferences subscription_id t none = pure tt
  write_preferences subscription_id t (some patch) =
      upsert_preferences env subscription_id t.channels t.quiet_start t.quiet_end t.timezone

  -- The transaction of `update_subscription`, and what follows it.
  unfoldable pub write_update :
      ℕ
      → ℕ
      → Bool
      → Bool
      → Target
      → Option SubscriptionPreferencesPatchRequest
      → Call SubscriptionRecord
  write_update user_id subscription_id old new t patch = do
    current ← transaction (do
      write_active user_id subscription_id old new
      write_preferences subscription_id t patch
      get_by_id_for_user subscription_id user_id)
    required "Subscription not found" current

  unfoldable pub update_subscription :
      ℕ → ℕ → Option Bool → Option SubscriptionPreferencesPatchRequest → Call SubscriptionRecord
  unfolding patched write_update
  update_subscription user_id subscription_id is_active patch = do
    found ← get_by_id_for_user subscription_id user_id
    existing ← required "Subscription not found" found
    t ← lift (target env existing.preferences patch)
    (if half_set t.quiet_start t.quiet_end
        then raise (validation_error "quiet hours must include both start and end")
        else (meanwhile env
            >> write_update user_id subscription_id existing.is_active
                (target_active existing.is_active is_active) t patch))

  module _ (codec : Codec) where
    unfoldable pub list_my : ℕ → ℕ → Option String → Call (List SubscriptionRecord × Option String)
    unfolding decode_cursor cursor_pair subscriptions_cursor
    list_my user_id limit cursor = do
      cursor_data ← lift (decode_cursor codec cursor)
      pair ← lift (cursor_pair codec "created_at" codec.parse_time cursor_data)
      rows ← list_for_user user_id (limit + 1) pair
      pure (
          cut_page (λ (r : SubscriptionRecord). subscriptions_cursor codec r.created_at r.id) limit
            rows)

    unfoldable pub list_internal_subscribers :
        ℕ → ℕ → Option String → Call (List SubscriberRecord × Option String)
    unfolding get_topic_by_id decode_cursor cursor_pair subscribers_cursor
    list_internal_subscribers topic_id limit cursor = do
      topic ← get_topic_by_id topic_id
      required "Topic not found" topic
      cursor_data ← lift (decode_cursor codec cursor)
      pair ← lift (cursor_pair codec "user_id" codec.parse_uuid cursor_data)
      meanwhile env
      rows ← list_active_subscribers topic_id (limit + 1) pair
      pure (
          cut_page (λ (r : SubscriberRecord). subscribers_cursor codec r.user_id r.subscription_id)
            limit rows)
