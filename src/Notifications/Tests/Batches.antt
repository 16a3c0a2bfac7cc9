-- ===== src/Notifications/Tests/Batches.antt =====
-- Runs of a batch of the outbox publisher.
use substy.Notifications.Outbox.{is_unpublished}
use substy.Base.{
  count_where, ◌≡◌, refl, ◌==◌, if◌then◌else◌, some, none, [], ◌∷◌, Json, ok, no_tx, sort_by,
  take_chars, ℕ, Option, arith,
}
use substy.Notifications.Model.{OutboxEventRecord, Store, Env}
use substy.Notifications.Publisher.{publish_batch}
use substy.Notifications.Publisher.Batch.{publish_batch_lem}
use substy.Notifications.Tests.{test_env, empty_store}

abbrev event : ℕ → ℕ → Option ℕ → OutboxEventRecord
event id created_at published_at = record {
  id = id;
  aggregate_type = "notification";
  aggregate_id = 40;
  event_type = "notification.created";
  payload = record {
    event_id = id;
    notification_id = 40;
    topic_id = 3;
    created_by = 9;
    payload = Json.text "hi";
    scheduled_at = none;
    created_at = created_at;
  };
  headers = record { request_id = "r"; user_id = 9; source = none };
  created_at = created_at;
  published_at = published_at;
  publish_attempts = 0;
  last_error = none;
}

-- JetStream refuses the event 2.
abbrev one_refused : Env
one_refused = record test_env { publish_error = λ e. if e.id == 2 then some "timeout" else none }

-- Three to publish, of which the last is the oldest, and one that is published.
abbrev four_events : Store
four_events = record empty_store {
  db = record {
    notifications = [];
    outbox_events =
        event 1 30 none ∷ event 2 20 none ∷ event 3 5 (some 6000) ∷ event 4 10 none ∷ [];
  };
}

publish_batch_lem_example :
    let (result, s') = publish_batch one_refused four_events in
    (result ≡ ok tt)
    × (s'.tx ≡ no_tx)
    × (s'.db.outbox_events
        ≡ record (event 1 30 none) { published_at = some 7000; publish_attempts = 1 }
          ∷ record (event 2 20 none) {
            publish_attempts = 1;
            last_error = some (take_chars 2000 "timeout");
          }
          ∷ event 3 5 (some 6000)
          ∷ record (event 4 10 none) { published_at = some 7000; publish_attempts = 1 }
          ∷ [])
    × (s'.db.notifications ≡ [])
    × (s'.world.published ≡ event 4 10 none ∷ event 1 30 none ∷ [])
    × (s'.world.metrics.outbox_unpublished_count ≡ count_where is_unpublished s'.db.outbox_events)
unfolding sort_by
publish_batch_lem_example = publish_batch_lem one_refused four_events refl (
  (omega arith, (omega arith, (omega arith, tt))),
  ((omega arith, (omega arith, tt)), ((omega arith, tt), (tt, tt))),
)
