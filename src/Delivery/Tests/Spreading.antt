-- ===== src/Delivery/Tests/Spreading.antt =====
-- Runs of the fan-out.
use substy.Base.{
  Option, some, length, str_eq, if◌then◌else◌, All, ℕ, ◌≡◌, refl, true, false, ◌&&◌, none, List, [],
  ◌∷◌, ◌++◌, map, String, ok, err, postgres, in_tx, aborted_tx, arith, Json, truthy, member, strip,
  split,
}
use substy.Channels.{cleaned, normalize_channels}
use substy.Channels.Laws.{NoRepeat, normalize_channels_lem}
use substy.Delivery.Metrics.{add_count}
use substy.Delivery.Model.{DeliveryAttemptRecord, Store}
use substy.Delivery.Attempts.{create_or_get}
use substy.Delivery.Processed.{try_mark_processed}
use substy.Delivery.Effects.{uuid4, enqueue_job}
use substy.Delivery.Consumer.{Msg, acked, nacked, Consumer, handle_messages}
use substy.Delivery.Consumer.Acks.{IsSound, handle_messages-IsSound}
use substy.Delivery.Fanout.{
  NotificationCreatedEvent, settings_channels, SubscriberItem, process_notification_created,
  fan_pages, fan_subscribers,
}
use substy.Delivery.Fanout.Wanted.{Wanted, Pages, last_page, more_pages, wanted}
use substy.Delivery.Fanout.Process.{
  Handled, process_notification_created_lem, process_notification_created_twice,
}
use substy.Delivery.Fanout.Returns.{IsFree, AreDistinct, process_notification_created-returns}
use substy.Delivery.Fanout.Paging.{fan_pages-eq-fan_subscribers}
use substy.Delivery.Fanout.Duplicates.{create_or_get_again, create_or_get_in_block}
use substy.Delivery.Tests.{
  test_env, test_attempt, store_with, one_attempt, test_event, test_fanout, first_page, second_page,
}

abbrev subscribers : List SubscriberItem
subscribers = first_page.items ++ second_page.items

pages : Pages test_fanout 3 2 none subscribers
pages = more_pages first_page refl refl (last_page second_page refl refl)

abbrev empty_store : Store
empty_store = store_with []

after_fanout : Store
after_fanout =
    (process_notification_created test_fanout test_event 2 "notification.created" empty_store).1

creates_two :
    map {B = ℕ × String}
      (λ (a : DeliveryAttemptRecord). (a.user_id, a.channel))
      after_fanout.db.delivery_attempts
    ≡ (9, "email") ∷ (10, "push") ∷ []
unfolding after_fanout process_notification_created try_mark_processed create_or_get uuid4
    enqueue_job normalize_channels strip member split add_count
creates_two = refl

process_notification_created_lem_example :
    Handled test_fanout test_event "notification.created"
      (wanted test_fanout test_event subscribers)
      empty_store
      (process_notification_created test_fanout test_event 2 "notification.created" empty_store)
process_notification_created_lem_example =
    process_notification_created_lem test_fanout test_event 2 2 "notification.created" subscribers
      empty_store refl pages

returns_true :
    process_notification_created test_fanout test_event 2 "notification.created" empty_store
    ≡ (ok true, after_fanout)
unfolding after_fanout process_notification_created try_mark_processed create_or_get uuid4
    enqueue_job normalize_channels strip member split add_count
returns_true = refl

process_notification_created_twice_example :
    process_notification_created test_fanout test_event 1 "again" after_fanout
    ≡ (ok false, after_fanout)
process_notification_created_twice_example =
    process_notification_created_twice test_fanout test_fanout test_event 2 2 1
      "notification.created" "again" subscribers empty_store after_fanout refl pages returns_true

fan_pages-eq-fan_subscribers_example :
    fan_pages test_fanout test_event 2 none [] empty_store
    ≡ fan_subscribers test_fanout test_event subscribers [] empty_store
fan_pages-eq-fan_subscribers_example =
    fan_pages-eq-fan_subscribers test_fanout test_event 2 2 none subscribers [] empty_store pages
      (omega arith)

finds_again :
    create_or_get test_env 2 40 9 "email" (Json.text "hi") none none "UTC" one_attempt
    ≡ (ok (test_attempt, false), one_attempt)
finds_again =
    create_or_get_again test_env 2 40 9 "email" (Json.text "hi") none none "UTC" one_attempt refl
      test_attempt refl refl

abbrev in_block : Store
in_block = record one_attempt { tx = in_tx }

create_or_get_in_block_example :
    create_or_get test_env 2 40 9 "email" (Json.text "hi") none none "UTC" in_block
    ≡ (err (postgres "25P02"), record in_block { tx = aborted_tx })
create_or_get_in_block_example =
    create_or_get_in_block test_env 2 40 9 "email" (Json.text "hi") none none "UTC" in_block refl
      test_attempt refl refl

abbrev given : List String
given = " email" ∷ "email" ∷ "" ∷ []

normalize_channels_lem_example :
    (member "email" (normalize_channels (λ s. s) given)
      ≡ (member "email" (map (cleaned (λ s. s)) given) && truthy "email"))
    × NoRepeat (normalize_channels (λ s. s) given)
normalize_channels_lem_example = normalize_channels_lem (λ s. s) "email" given

wants_two :
    map (λ (w : Wanted). w.user_id) (wanted test_fanout test_event subscribers) ≡ 9 ∷ 10 ∷ []
unfolding wanted normalize_channels strip member split settings_channels
wants_two = refl

wanted-IsFree : All (IsFree []) (wanted test_fanout test_event subscribers)
unfolding wanted normalize_channels strip member split settings_channels
wanted-IsFree = ((refl, refl), ((refl, refl), tt))

wanted-AreDistinct : AreDistinct (wanted test_fanout test_event subscribers)
unfolding wanted normalize_channels strip member split settings_channels
wanted-AreDistinct = ((refl, tt), (tt, tt))

process_notification_created-returns_example :
    (process_notification_created test_fanout test_event 2 "notification.created" empty_store).0
    ≡ ok true
process_notification_created-returns_example =
    process_notification_created-returns test_fanout test_event (λ j k e. omega (arith, e))
      (λ job. refl) 2 2 "notification.created" subscribers empty_store refl pages (omega arith) refl
      (λ k. refl) wanted-IsFree wanted-AreDistinct

-- Two messages, of which only the second is an event, and nobody refuses an acknowledgement.
abbrev parse_go : String → Option NotificationCreatedEvent
parse_go text = if str_eq text "go" then some test_event else none

abbrev bad_message : Msg
bad_message = record { «data» = "?"; subject = "notification.created" }

abbrev good_message : Msg
good_message = record { «data» = "go"; subject = "notification.created" }

abbrev before_fetch : Consumer
before_fetch = record { store = empty_store; replies = [] }

answers_both :
    (handle_messages parse_go
      (λ msg. test_fanout)
      (λ msg. true)
      2
      (bad_message ∷ good_message ∷ [])
      before_fetch).replies
    ≡ nacked bad_message ∷ acked good_message ∷ []
unfolding handle_messages process_notification_created try_mark_processed create_or_get uuid4
    enqueue_job normalize_channels strip member split add_count
answers_both = refl

handle_messages-IsSound_example :
    IsSound parse_go
      (λ msg. test_fanout)
      (λ msg. true)
      2
      (handle_messages parse_go
        (λ msg. test_fanout)
        (λ msg. true)
        2
        (bad_message ∷ good_message ∷ [])
        before_fetch)
    × (length
          (handle_messages parse_go
            (λ msg. test_fanout)
            (λ msg. true)
            2
            (bad_message ∷ good_message ∷ [])
            before_fetch).replies
        ≡ 2)
handle_messages-IsSound_example =
    handle_messages-IsSound parse_go (λ msg. test_fanout) (λ msg. true) 2
      (bad_message ∷ good_message ∷ []) before_fetch
      (λ msg topic_id.
        (2, subscribers, more_pages first_page refl refl (last_page second_page refl refl)))
      (refl, tt)
