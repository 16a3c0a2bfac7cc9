-- ===== src/Delivery/Effects.antt =====
-- The calls outside the database that the services of this component share: `uuid4`, the job
-- queue, JetStream and the counters.
use substy.Base.{ℕ, ◌+◌, [], ◌∷◌, ◌++◌, String, if◌then◌else◌, ok, err, external, modify_world}
use substy.Delivery.Model.{Job, Event, MetricsRegistry, Call, Env}

-- `uuid4()`, as a number
unfoldable pub uuid4 : Env → Call ℕ
uuid4 env s =
    (ok (env.uuid s.world.draws), record s { world = record s.world { draws = s.world.draws + 1 } })

abbrev pub update_metrics : (MetricsRegistry → MetricsRegistry) → Call (Unit {0})
update_metrics f = modify_world λ w. record w { metrics = f w.metrics }

-- `NATSClient.publish_json`: JetStream takes the event, or the call raises.
unfoldable pub publish_json : Env → String → Event → Call (Unit {0})
publish_json env subject event s =
    if env.publish_ok subject event
    then (
      ok tt,
      record s {
        world = record s.world { published = s.world.published ++ (subject, event) ∷ [] };
      },
    )
    else (err (external "publish"), s)

-- `redis.enqueue_job`
unfoldable pub enqueue_job : Env → Job → Call (Unit {0})
enqueue_job env job s =
    if env.enqueue_ok job
    then (ok tt, record s { world = record s.world { jobs = s.world.jobs ++ job ∷ [] } })
    else (err (external "enqueue_job"), s)
