-- ===== src/Subscriptions/Repository.antt =====
-- repositories/subscriptions.py over the tables subscriptions and subscription_preferences.
use substy.Base.{
  ℕ, Bool, true, false, ◌&&◌, ◌||◌, not, Option, none, some, List, [], ◌∷◌, ◌++◌, String, map, take,
  ◌==◌, ltb, if◌then◌else◌, find_row, has_row, rows_where, update_where, sort_by, ok, Error,
  runtime_error, statement, refuse, gets, pure, raise, ◌>>=◌, ◌>>◌,
}
use substy.Delivery.Attempts.{channel_allowed}
use substy.Subscriptions.Model.{
  TopicRecord, SubscriptionRow, PreferencesRow, SubscriptionPreferencesRecord, SubscriptionRecord,
  SubscriberRecord, Db, Call, Env,
}

abbrev pub topic_id_is : ℕ → TopicRecord → Bool
topic_id_is i t = t.id == i

abbrev pub same_id : ℕ → SubscriptionRow → Bool
same_id i s = s.id == i

abbrev pub owned : ℕ → ℕ → SubscriptionRow → Bool
owned i user_id s = s.id == i && s.user_id == user_id

abbrev pub same_pair : ℕ → ℕ → SubscriptionRow → Bool
same_pair user_id topic_id s = s.user_id == user_id && s.topic_id == topic_id

abbrev pub preferences_of : ℕ → PreferencesRow → Bool
preferences_of i p = p.subscription_id == i

-- The LEFT JOIN with the preferences, and COALESCE where there are none.
abbrev pub joined : SubscriptionRow → Option PreferencesRow → SubscriptionPreferencesRecord
joined s none = record {
  channels = "push" ∷ [];
  quiet_hours_start = none;
  quiet_hours_end = none;
  timezone = "UTC";
  updated_at = s.updated_at;
}
joined s (some p) = record {
  channels = p.channels;
  quiet_hours_start = p.quiet_hours_start;
  quiet_hours_end = p.quiet_hours_end;
  timezone = p.timezone;
  updated_at = p.updated_at;
}

abbrev pub with_preferences : Db → SubscriptionRow → SubscriptionRecord
with_preferences d s = record {
  id = s.id;
  user_id = s.user_id;
  topic_id = s.topic_id;
  is_active = s.is_active;
  preferences = joined s (find_row (preferences_of s.id) d.preferences);
  created_at = s.created_at;
  updated_at = s.updated_at;
}

-- The first row that the query returns.
abbrev pub first_subscription : (SubscriptionRow → Bool) → Db → Option SubscriptionRecord
first_subscription p d = elim (find_row p d.subscriptions) [
  | none ↦ none
  | some s ↦ some (with_preferences d s)
]

unfoldable pub get_by_user_topic : ℕ → ℕ → Call (Option SubscriptionRecord)
get_by_user_topic user_id topic_id =
    statement (gets λ s. first_subscription (same_pair user_id topic_id) s.db)

unfoldable pub get_by_id_for_user : ℕ → ℕ → Call (Option SubscriptionRecord)
get_by_id_for_user subscription_id user_id =
    statement (gets λ s. first_subscription (owned subscription_id user_id) s.db)

-- `channels <@ ARRAY['push', 'email', 'web']`
unfoldable pub channels_allowed : List String → Bool
channels_allowed [] = true
channels_allowed (c ∷ cs) = channel_allowed c && channels_allowed cs

abbrev pub is_empty : List String → Bool
is_empty [] = true
is_empty (c ∷ cs) = false

abbrev pub set_preferences : PreferencesRow → List PreferencesRow → List PreferencesRow
set_preferences p ps =
    if has_row (preferences_of p.subscription_id) ps
    then update_where (preferences_of p.subscription_id) (λ _. p) ps
    else ps ++ p ∷ []

-- INSERT … ON CONFLICT (subscription_id) DO UPDATE, with the two CHECK constraints (23514) and the
-- reference to the subscription (23503).
unfoldable pub upsert_preferences :
    Env → ℕ → List String → Option ℕ → Option ℕ → String → Call (Unit {0})
unfolding channels_allowed
upsert_preferences env subscription_id channels start end timezone = statement λ s.
    if is_empty channels || not (channels_allowed channels)
    then refuse "23514" s
    else if not (has_row (same_id subscription_id) s.db.subscriptions)
    then refuse "23503" s
    else (
      ok tt,
      record s { db = record s.db { preferences = set_preferences row s.db.preferences } },
    )
  where
    row : PreferencesRow
    row = record {
      subscription_id = subscription_id;
      channels = channels;
      quiet_hours_start = start;
      quiet_hours_end = end;
      timezone = timezone;
      updated_at = env.db_now;
    }

-- INSERT, with the primary key and UNIQUE (user_id, topic_id) (23505) and the reference to the topic
-- (23503).
unfoldable pub insert_subscription : SubscriptionRow → Call (Unit {0})
insert_subscription row = statement λ s.
    if has_row (same_id row.id) s.db.subscriptions
      || has_row (same_pair row.user_id row.topic_id) s.db.subscriptions
    then refuse "23505" s
    else if not (has_row (topic_id_is row.topic_id) s.db.topics)
    then refuse "23503" s
    else (ok tt, record s { db = record s.db { subscriptions = s.db.subscriptions ++ row ∷ [] } })

abbrev pub fetched : Error → Option SubscriptionRecord → Call SubscriptionRecord
fetched e none = raise e
fetched e (some s) = pure s

unfoldable pub create : Env → ℕ → ℕ → ℕ → Call SubscriptionRecord
unfolding insert_subscription upsert_preferences
create env subscription_id user_id topic_id = do
  insert_subscription (record {
    id = subscription_id;
    user_id = user_id;
    topic_id = topic_id;
    is_active = true;
    created_at = env.db_now;
    updated_at = env.db_now;
  })
  upsert_preferences env subscription_id ("push" ∷ []) none none "UTC"
  created ← get_by_id_for_user subscription_id user_id
  fetched (runtime_error "Failed to fetch created subscription") created

abbrev pub set_active : Env → Bool → SubscriptionRow → SubscriptionRow
set_active env is_active s = record s { is_active = is_active; updated_at = env.db_now }

-- The UPDATE; `false` if it returned no id.
unfoldable pub update_row : Env → ℕ → ℕ → Bool → Call Bool
update_row env subscription_id user_id is_active = statement λ s. (
  ok (has_row (owned subscription_id user_id) s.db.subscriptions),
  record s {
    db = record s.db {
      subscriptions =
          update_where (owned subscription_id user_id) (set_active env is_active)
            s.db.subscriptions;
    };
  },
)

-- The UPDATE and the SELECT that reads the row back are one step here: no commit of another session
-- falls between them.
unfoldable pub update_active : Env → ℕ → ℕ → Bool → Call (Option SubscriptionRecord)
unfolding update_row get_by_id_for_user
update_active env subscription_id user_id is_active = do
  updated ← update_row env subscription_id user_id is_active
  if not updated then pure none else get_by_id_for_user subscription_id user_id

-- (x, y) < (u, v)
abbrev pub pair_less : ℕ → ℕ → ℕ → ℕ → Bool
pair_less x y u v = ltb x u || (x == u && ltb y v)

abbrev pub before_cursor : Option (ℕ × ℕ) → SubscriptionRow → Bool
before_cursor none s = true
before_cursor (some (created_at, id)) s = pair_less s.created_at s.id created_at id

-- ORDER BY s.created_at DESC, s.id DESC
unfoldable pub list_for_user : ℕ → ℕ → Option (ℕ × ℕ) → Call (List SubscriptionRecord)
list_for_user user_id limit cursor = statement (
    gets λ s. map (with_preferences s.db) (
      take limit (
        sort_by (λ a b. pair_less b.created_at b.id a.created_at a.id)
          (rows_where (λ r. r.user_id == user_id && before_cursor cursor r) s.db.subscriptions))))

abbrev pub subscriber_of : Db → SubscriptionRow → SubscriberRecord
subscriber_of d s =
    let p = joined s (find_row (preferences_of s.id) d.preferences) in
    record {
      user_id = s.user_id;
      subscription_id = s.id;
      channels = p.channels;
      quiet_hours_start = p.quiet_hours_start;
      quiet_hours_end = p.quiet_hours_end;
      timezone = p.timezone;
    }

abbrev pub active_in : ℕ → SubscriptionRow → Bool
active_in topic_id s = s.topic_id == topic_id && s.is_active

abbrev pub after_cursor : Option (ℕ × ℕ) → SubscriptionRow → Bool
after_cursor none s = true
after_cursor (some (user_id, id)) s = pair_less user_id id s.user_id s.id

-- ORDER BY s.user_id ASC, s.id ASC
abbrev pub subscriber_before : SubscriptionRow → SubscriptionRow → Bool
subscriber_before a b = pair_less a.user_id a.id b.user_id b.id

unfoldable pub list_active_subscribers : ℕ → ℕ → Option (ℕ × ℕ) → Call (List SubscriberRecord)
list_active_subscribers topic_id limit cursor = statement (
    gets λ s. map (subscriber_of s.db) (
      take limit (
        sort_by subscriber_before
          (rows_where (λ r. active_in topic_id r && after_cursor cursor r) s.db.subscriptions))))
