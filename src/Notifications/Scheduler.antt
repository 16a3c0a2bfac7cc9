-- ===== src/Notifications/Scheduler.antt =====
-- services/scheduler_service.py: SchedulerService, one tick.
use substy.Base.{
  ℕ, ◌+◌, some, List, [], ◌∷◌, String, map, length, leb, if◌then◌else◌, transaction, pure, ◌>>=◌,
  ◌>>◌,
}
use substy.Notifications.Model.{NotificationRecord, EventHeaders, MetricsRegistry, Call, Env}
use substy.Notifications.Repository.{
  lock_due_scheduled_batch, mark_queued_by_ids, count_scheduled_backlog, count_scheduled_due,
  notification_id,
}
use substy.Notifications.Outbox.{create_event}
use substy.Notifications.Service.{uuid4, update_metrics, created_event}

pub record SchedulerTickResult : Type 0 where
  pub picked_count : ℕ
  pub due_count : ℕ
  pub backlog_count : ℕ

unfoldable pub inc_scheduler_picked : ℕ → MetricsRegistry → MetricsRegistry
inc_scheduler_picked count m =
    if leb count 0
    then m
    else record m { scheduler_picked_total = m.scheduler_picked_total + count }

unfoldable pub set_scheduled_counts : ℕ → ℕ → MetricsRegistry → MetricsRegistry
set_scheduled_counts backlog_count due_count m = record m {
  scheduled_backlog_count = backlog_count;
  scheduled_due_count = due_count;
}

module _ (env : Env) (request_id : String) where
  abbrev pub scheduler_headers : NotificationRecord → EventHeaders
  scheduler_headers n = record {
    request_id = request_id;
    user_id = n.created_by;
    source = some "notifications-scheduler";
  }

  -- `for notification in queued`
  unfoldable pub create_events : List NotificationRecord → Call (Unit {0})
  unfolding uuid4
  create_events [] = pure tt
  create_events (n ∷ ns) = do
    event_id ← uuid4 env
    create_event (created_event env event_id (scheduler_headers n) n)
    create_events ns

  unfoldable pub queue_due : Call (List NotificationRecord)
  unfolding create_events
  queue_due = transaction (do
    due ← lock_due_scheduled_batch env env.settings.scheduler_batch_size
    queued ← mark_queued_by_ids env (map notification_id due)
    create_events queued
    pure queued)

  -- The end of a tick.
  unfoldable pub report : List NotificationRecord → ℕ → ℕ → Call SchedulerTickResult
  unfolding inc_scheduler_picked set_scheduled_counts
  report queued backlog_count due_count = do
    let picked_count = length queued
    update_metrics (inc_scheduler_picked picked_count)
    update_metrics (set_scheduled_counts backlog_count due_count)
    pure (record {
      picked_count = picked_count;
      due_count = due_count;
      backlog_count = backlog_count;
    })

  unfoldable pub run_one_tick : Call SchedulerTickResult
  unfolding queue_due report
  run_one_tick = do
    queued ← queue_due
    backlog_count ← count_scheduled_backlog
    due_count ← count_scheduled_due env
    report queued backlog_count due_count
