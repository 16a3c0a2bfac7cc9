-- ===== src/Notifications/Publisher.antt =====
-- services/outbox_publisher.py: OutboxPublisher, one batch.
pub mod Delivered
pub mod Batch
use substy.Base.{
  ℕ, ◌+◌, Bool, true, false, Option, none, some, List, [], ◌∷◌, ◌++◌, String, if◌then◌else◌,
  transaction, pure, ◌>>=◌, ◌>>◌,
}
use substy.Notifications.Model.{OutboxEventRecord, MetricsRegistry, Store, Call, Env}
use substy.Notifications.Outbox.{
  lock_unpublished_batch, mark_published, mark_failed, count_unpublished,
}
use substy.Notifications.Service.{update_metrics}

unfoldable pub observe_outbox_publish : Bool → MetricsRegistry → MetricsRegistry
observe_outbox_publish failed m = record m {
  outbox_publish_attempts_total = m.outbox_publish_attempts_total + 1;
  outbox_publish_failures_total =
      if failed then m.outbox_publish_failures_total + 1 else m.outbox_publish_failures_total;
}

unfoldable pub set_outbox_unpublished_count : ℕ → MetricsRegistry → MetricsRegistry
set_outbox_unpublished_count value m = record m { outbox_unpublished_count = value }

module _ (env : Env) where
  -- `NATSClient.publish_json` takes the event.
  abbrev pub deliver : OutboxEventRecord → Store → Store
  deliver e s = record s { world = record s.world { published = s.world.published ++ e ∷ [] } }

  unfoldable pub publish_answer : OutboxEventRecord → Option String → Call (Unit {0})
  unfolding observe_outbox_publish
  publish_answer e none s =
      (mark_published env e.id >> update_metrics (observe_outbox_publish false)) (deliver e s)
  publish_answer e (some message) s =
      (mark_failed e.id message >> update_metrics (observe_outbox_publish true)) s

  -- The body of the loop, with its `except Exception`: what raises in the `try` is the publishing, or
  -- the UPDATE in a block that is aborted, and there the second UPDATE raises too.
  unfoldable pub publish_event : OutboxEventRecord → Call (Unit {0})
  unfolding publish_answer
  publish_event e = publish_answer e (env.publish_error e)

  unfoldable pub publish_events : List OutboxEventRecord → Call (Unit {0})
  unfolding publish_event
  publish_events [] = pure tt
  publish_events (e ∷ es) = publish_event e >> publish_events es

  unfoldable pub publish_batch : Call (Unit {0})
  unfolding publish_events set_outbox_unpublished_count
  publish_batch = transaction (do
    events ← lock_unpublished_batch env env.settings.outbox_batch_size
    publish_events events
    unpublished_count ← count_unpublished
    update_metrics (set_outbox_unpublished_count unpublished_count))
