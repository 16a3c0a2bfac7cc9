-- ===== src/Subscriptions/Model.antt =====
-- The data of the subscriptions service: the rows of its three tables (the migrations), what the
-- repositories return (repositories/records.py), the requests (schemas/subscriptions.py), and its
-- state. A UUID is a number.
use substy.Base.{ℕ, Bool, List, Option, String, State, Action, Outcome}

pub record TopicRecord : Type 0 where
  pub id : ℕ
  pub key : String
  pub name : String
  pub description : Option String
  pub created_at : ℕ

-- A row of subscriptions.subscriptions, and one of subscriptions.subscription_preferences.
pub record SubscriptionRow : Type 0 where
  pub id : ℕ
  pub user_id : ℕ
  pub topic_id : ℕ
  pub is_active : Bool
  pub created_at : ℕ
  pub updated_at : ℕ

pub record PreferencesRow : Type 0 where
  pub subscription_id : ℕ
  pub channels : List String
  pub quiet_hours_start : Option ℕ
  pub quiet_hours_end : Option ℕ
  pub timezone : String
  pub updated_at : ℕ

pub record SubscriptionPreferencesRecord : Type 0 where
  pub channels : List String
  pub quiet_hours_start : Option ℕ
  pub quiet_hours_end : Option ℕ
  pub timezone : String
  pub updated_at : ℕ

pub record SubscriptionRecord : Type 0 where
  pub id : ℕ
  pub user_id : ℕ
  pub topic_id : ℕ
  pub is_active : Bool
  pub preferences : SubscriptionPreferencesRecord
  pub created_at : ℕ
  pub updated_at : ℕ

pub record SubscriberRecord : Type 0 where
  pub user_id : ℕ
  pub subscription_id : ℕ
  pub channels : List String
  pub quiet_hours_start : Option ℕ
  pub quiet_hours_end : Option ℕ
  pub timezone : String

-- A patch that has passed its validators: the channels are not empty, the timezone is stripped and
-- not empty, and one field at least is there.
pub record SubscriptionPreferencesPatchRequest : Type 0 where
  pub channels : Option (List String)
  pub quiet_hours : Option (ℕ × ℕ)
  pub timezone : Option String

pub record Db : Type 0 where
  pub topics : List TopicRecord
  pub subscriptions : List SubscriptionRow
  pub preferences : List PreferencesRow

-- How many random UUIDs were drawn.
pub record World : Type 0 where
  pub draws : ℕ

abbrev pub Store : Type 0
Store = State Db World

abbrev pub Call : Type 0 → Type 0
Call A = Action Store A

-- What the environment answers: `uuid4`, the database's now(), what other sessions commit between
-- two statements outside a transaction, and `ZoneInfo(name)`, which returns or raises.
pub record Env : Type 0 where
  pub uuid : ℕ → ℕ
  pub db_now : ℕ
  pub others : Db → Db
  pub zone_info : String → Outcome (Unit {0})
  pub lower : String → String
