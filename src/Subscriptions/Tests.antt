-- ===== src/Subscriptions/Tests.antt =====
-- Runs of the subscriptions service.
use substy.Base.{
  ℕ, zero, suc, List, String, ◌<◌, inl, inr, Bool-cases, str_eq, eq_iff, ap, arith, truthy,
  with_comma, halves, halves-with_comma, tally, char_count-tally, char_count, ◌+◌, ◌≡◌, refl, true,
  false, some, none, [], ◌∷◌, All, ok, no_tx, sort_by,
}
use substy.Pagination.{Codec, Loaded, object, subscribers_cursor, decode_cursor, cursor_pair}
use substy.Subscriptions.Service.Pages.{ReadsBack, iter_subscribers, iter_subscribers_lem}
use substy.Subscriptions.Model.{
  SubscriptionRecord, SubscriberRecord, SubscriptionPreferencesPatchRequest, Store, Env,
}
use substy.Subscriptions.Repository.{
  get_by_user_topic, create, get_by_id_for_user, update_active, list_active_subscribers,
}
use substy.Subscriptions.Api
use substy.Entry.{replied, replies}
use substy.Subscriptions.Service.{
  list_internal_subscribers, get_topic_by_id, subscribe, unsubscribe, update_subscription,
}
use substy.Subscriptions.Service.Quiet.{ArePaired, update_subscription-ArePaired}
use substy.Subscriptions.Service.Twice.{subscribe_twice}
use substy.Subscriptions.Service.Active.{is_subscriber, unsubscribe_lem}

abbrev test_env : Env
test_env = record {
  uuid = λ n. 500 + n;
  db_now = 7000;
  others = λ d. d;
  zone_info = λ name. ok tt;
  lower = λ s. s;
}

abbrev one_subscription : Store
one_subscription = record {
  db = record {
    topics =
        record { id = 3; key = "news"; name = "News"; description = none; created_at = 1000 } ∷ [];
    subscriptions =
        record {
          id = 7;
          user_id = 9;
          topic_id = 3;
          is_active = true;
          created_at = 2000;
          updated_at = 2000;
        }
        ∷ [];
    preferences = [];
  };
  tx = no_tx;
  world = record { draws = 0 };
}

abbrev night : SubscriptionPreferencesPatchRequest
night = record { channels = some ("email" ∷ []); quiet_hours = some (10, 20); timezone = none }

abbrev off : Store
off = record one_subscription {
  db = record one_subscription.db {
    subscriptions =
        record {
          id = 7;
          user_id = 9;
          topic_id = 3;
          is_active = false;
          created_at = 2000;
          updated_at = 7000;
        }
        ∷ [];
  };
}

switches_off : unsubscribe test_env 9 7 one_subscription ≡ (ok tt, off)
unfolding unsubscribe get_by_id_for_user update_active
switches_off = refl

lists_none : list_active_subscribers 3 10 none off ≡ (ok [], off)
unfolding list_active_subscribers sort_by
lists_none = refl

unsubscribe_lem_example : All (λ r. is_subscriber 7 9 r ≡ false) []
unsubscribe_lem_example =
    unsubscribe_lem test_env 9 7 3 10 none one_subscription off off [] (tt, tt) switches_off
      lists_none

update_subscription-ArePaired_example :
    ArePaired (update_subscription test_env 9 7 none (some night) one_subscription).1.db
update_subscription-ArePaired_example =
    update_subscription-ArePaired test_env (λ d k. k) 9 7 none (some night) one_subscription tt

abbrev eighth : SubscriptionRecord
eighth = record {
  id = 500;
  user_id = 8;
  topic_id = 3;
  is_active = true;
  preferences = record {
    channels = "push" ∷ [];
    quiet_hours_start = none;
    quiet_hours_end = none;
    timezone = "UTC";
    updated_at = 7000;
  };
  created_at = 7000;
  updated_at = 7000;
}

after_subscribe : Store
after_subscribe = (subscribe test_env 8 3 one_subscription).1

subscribes : subscribe test_env 8 3 one_subscription ≡ (ok (eighth, true), after_subscribe)
unfolding after_subscribe subscribe get_by_user_topic create get_by_id_for_user
subscribes = refl

subscribe_twice_example :
    (eighth.user_id ≡ 8)
    × (eighth.topic_id ≡ 3)
    × (eighth.is_active ≡ true)
    × (true ≡ true)
    × (subscribe test_env 8 3 after_subscribe ≡ (ok (eighth, false), after_subscribe))
subscribe_twice_example =
    subscribe_twice test_env test_env 8 3 one_subscription after_subscribe eighth true refl (tt, tt)
      (λ d. refl) (λ d. refl) subscribes

abbrev comma_encode : List (String × String) → String
comma_encode ((_, a) ∷ (_, b) ∷ []) = with_comma a b
comma_encode _ = ""

abbrev comma_load : String → Loaded
comma_load s = let (a, b) = halves s in object (("user_id", a) ∷ ("id", b) ∷ [])

abbrev test_codec : Codec
test_codec = record {
  encode = comma_encode;
  load = comma_load;
  uuid_text = tally;
  parse_uuid = λ s. some (char_count s);
  time_text = tally;
  parse_time = λ s. some (char_count s);
}

comma_longer : (n : ℕ) (t : String) → 0 < char_count (with_comma (tally n) t)
unfolding with_comma tally char_count
comma_longer zero t = omega arith
comma_longer (suc n) t = omega arith

comma_filled : (n : ℕ) (t : String) → truthy (with_comma (tally n) t) ≡ true
unfolding char_count
comma_filled n t = elim (Bool-cases (str_eq (with_comma (tally n) t) "")) [
  | inl empty ↦
      let none_counted = ap char_count ((eq_iff (with_comma (tally n) t) "").0 empty) in
      absurd (omega (arith, comma_longer n t, none_counted))
  | inr filled ↦ rw filled refl
]

test_codec-ReadsBack : ReadsBack test_codec
unfolding subscribers_cursor
test_codec-ReadsBack = (
  λ user_id id. rw (halves-with_comma user_id (tally id)) refl,
  λ n. ap some (char_count-tally n),
  λ user_id id. comma_filled user_id (tally id),
)

-- Two users of one topic, the later row with the smaller user id.
abbrev two_subscriptions : Store
two_subscriptions = record one_subscription {
  db = record one_subscription.db {
    subscriptions =
        record {
          id = 7;
          user_id = 9;
          topic_id = 3;
          is_active = true;
          created_at = 2000;
          updated_at = 2000;
        }
        ∷ record {
          id = 8;
          user_id = 5;
          topic_id = 3;
          is_active = true;
          created_at = 3000;
          updated_at = 3000;
        }
        ∷ [];
  };
}

abbrev by_default : ℕ → ℕ → SubscriberRecord
by_default user_id subscription_id = record {
  user_id = user_id;
  subscription_id = subscription_id;
  channels = "push" ∷ [];
  quiet_hours_start = none;
  quiet_hours_end = none;
  timezone = "UTC";
}

-- Pages of one row.
iter_subscribers_lem_example :
    iter_subscribers test_env test_codec 3 1 3 none two_subscriptions
    ≡ (ok (by_default 5 8 ∷ by_default 9 7 ∷ []), two_subscriptions)
unfolding sort_by
iter_subscribers_lem_example =
    iter_subscribers_lem test_env test_codec 3 1 3 two_subscriptions
      (record { id = 3; key = "news"; name = "News"; description = none; created_at = 1000 })
      test_codec-ReadsBack (omega arith) refl (λ d. refl) refl
      ((λ h. absurd (omega arith), tt), (tt, tt)) (omega arith)

-- A page of the internal endpoint, and a limit outside its bounds.
answers_page :
    (replied (Api.list_topic_subscribers test_env test_codec 3 500 none two_subscriptions)).0
    ≡ replies 200 (record { items = by_default 5 8 ∷ by_default 9 7 ∷ []; next_cursor = none })
unfolding Api.list_topic_subscribers list_internal_subscribers list_active_subscribers sort_by
    get_topic_by_id decode_cursor cursor_pair
answers_page = refl

refuses_limit :
    (replied (Api.list_topic_subscribers test_env test_codec 3 0 none two_subscriptions)).0.status
    ≡ 422
unfolding Api.list_topic_subscribers
refuses_limit = refl
