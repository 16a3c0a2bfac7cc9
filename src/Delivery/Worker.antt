-- ===== src/Delivery/Worker.antt =====
-- workers/arq_worker.py: the job functions of the arq worker.
pub mod Lives
use substy.Base.{ℕ, String, ◌≡◌, if◌then◌else◌, str_eq, external, raise}
use substy.Delivery.Model.{Job, Store, Call}
use substy.Delivery.Effects.{enqueue_job}
use substy.Delivery.Executor.{Service, execute_send}

module _ (svc : Service) where
  -- `_send_channel`, with a connection of its own.
  unfoldable pub send_channel : ℕ → Call (Unit {0})
  send_channel attempt_id = execute_send svc attempt_id

  abbrev pub send_push : ℕ → Call (Unit {0})
  send_push attempt_id = send_channel attempt_id

  abbrev pub send_email : ℕ → Call (Unit {0})
  send_email attempt_id = send_channel attempt_id

  abbrev pub send_web : ℕ → Call (Unit {0})
  send_web attempt_id = send_channel attempt_id

  unfoldable pub retry_channel : ℕ → String → Call (Unit {0})
  retry_channel attempt_id channel = enqueue_job svc.env (Job.send channel attempt_id)

  -- The function registered as `send_{channel}`; a job with another name fails in the queue.
  unfoldable pub send_function : String → ℕ → Call (Unit {0})
  send_function channel =
      if str_eq channel "push"
      then send_push
      else if str_eq channel "email"
      then send_email
      else if str_eq channel "web"
      then send_web
      else λ attempt_id. raise (external "function not found")

  -- `WorkerSettings.functions`: what a job of the queue runs.
  unfoldable pub perform : Job → Call (Unit {0})
  perform (Job.send channel attempt_id) = send_function channel attempt_id
  perform (Job.retry_attempt attempt_id channel delay) = retry_channel attempt_id channel

-- Jobs run one after the other, in any order and as often as the queue gives them, each at its own
-- time and with its own answers of providers and environment; the settings allow `top` attempts.
pub data Runs (top : ℕ) : Store → Store → Type 0 where
  idle : {s : Store} → Runs top s s
  job :
      {s t : Store} (svc : Service) (j : Job)
      → svc.settings.delivery_max_attempts ≡ top
      → Runs top (perform svc j s).1 t
      → Runs top s t
