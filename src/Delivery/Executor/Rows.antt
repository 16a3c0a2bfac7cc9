-- ===== src/Delivery/Executor/Rows.antt =====
-- What a call of the executor does to the table (services/delivery_executor.py).
use substy.Base.{
  ℕ, ◌+◌, ◌≡◌, ◌⊎◌, refl, inl, inr, ◌<◌, ◌≤◌, true, false, Option, none, some, find_row, ok, err,
  Outcome, Tx, no_tx, in_tx, arith, Bool-cases, leb, leave, aborted_tx, ◌>>=◌, ◌>>=◌, leave,
  aborted_tx,
}
use substy.Delivery.Model.{DeliveryAttemptRecord, Db, Store, DeliveryResult}
use substy.Delivery.Attempts.{
  same_id, get_for_update, mark_sent, mark_delayed, mark_failed, update_attempt, sent_row,
  delayed_row, failed_row,
}
use substy.Delivery.Executor.{
  Service, Provider, execute_send, attempt_delivery, on_success, on_dead, on_retry, on_result,
  deliver, is_final, not_due, delay_for_quiet_hours, provider_send, next_quiet_hours_retry,
  result_code, result_message, later_retry, backoff_end,
}
use substy.Delivery.Effects.{enqueue_job, publish_json, uuid4}

module _ (svc : Service) (a : DeliveryAttemptRecord) where
  open svc use {env}

  -- The rows that the attempt's row may become.
  pub data Becomes : DeliveryAttemptRecord → Type 0 where
    delivered : is_final svc a.status ≡ false → Becomes (sent_row env a)
    delayed :
        (at : ℕ)
        → is_final svc a.status ≡ false
        → next_quiet_hours_retry svc.zones svc.now_utc a ≡ ok (some at)
        → Becomes (delayed_row env at "quiet_hours" "Delivery delayed due to quiet hours" a)
    died :
        (r : DeliveryResult)
        → is_final svc a.status ≡ false
        → svc.settings.delivery_max_attempts ≤ a.attempt_no + 1
        → Becomes (
            failed_row env
              (a.attempt_no + 1)
              (result_code svc r)
              (result_message svc r)
              none
              true
              a)
    retried :
        (r : DeliveryResult) (quiet : Option ℕ)
        → is_final svc a.status ≡ false
        → a.attempt_no + 1 < svc.settings.delivery_max_attempts
        → Becomes (
            failed_row env
              (a.attempt_no + 1)
              (result_code svc r)
              (result_message svc r)
              (some (later_retry svc (backoff_end svc (a.attempt_no + 1)) quiet))
              false
              a)

  -- One UPDATE of the row, or none.
  abbrev pub Touches : Db → Db → Type 0
  Touches before after =
      (after ≡ before)
      ⊎ ((f : DeliveryAttemptRecord → DeliveryAttemptRecord) × ((r : DeliveryAttemptRecord)
            → (f r).id ≡ r.id)
          × (after ≡ update_attempt a.id f before)
          × Becomes (f a))

  module _ (s : Store) (in_block : s.tx ≡ in_tx) (open_row : is_final svc a.status ≡ false) where
    on_success-db : (on_success svc a s).1.db ≡ update_attempt a.id (sent_row env) s.db
    unfolding on_success mark_sent uuid4 publish_json
    on_success-db = ground arith

    delay-db :
        (at : ℕ)
        → (delay_for_quiet_hours svc a at s).1.db
          ≡ update_attempt a.id
              (delayed_row env at "quiet_hours" "Delivery delayed due to quiet hours")
              s.db
    unfolding delay_for_quiet_hours mark_delayed enqueue_job
    delay-db at = ground arith

    on_dead-db :
        (n : ℕ) (r : DeliveryResult)
        → (on_dead svc a n r s).1.db
          ≡ update_attempt a.id
              (failed_row env n (result_code svc r) (result_message svc r) none true)
              s.db
    unfolding on_dead mark_failed uuid4 publish_json
    on_dead-db n r = ground arith

    on_retry-db :
        (n : ℕ) (r : DeliveryResult) (quiet : Option ℕ)
        → next_quiet_hours_retry svc.zones (backoff_end svc n) a ≡ ok quiet
        → (on_retry svc a n r s).1.db
          ≡ update_attempt a.id
              (failed_row env n
                (result_code svc r)
                (result_message svc r)
                (some (later_retry svc (backoff_end svc n) quiet))
                false)
              s.db
    unfolding on_retry mark_failed enqueue_job
    on_retry-db n r quiet e = ground arith

    on_retry-db_refused :
        (n : ℕ) (r : DeliveryResult) {e : _}
        → next_quiet_hours_retry svc.zones (backoff_end svc n) a ≡ err e
        → (on_retry svc a n r s).1.db ≡ s.db
    unfolding on_retry
    on_retry-db_refused n r h = ground arith

    on_retry-Touches :
        (r : DeliveryResult) (q : Outcome (Option ℕ))
        → next_quiet_hours_retry svc.zones (backoff_end svc (a.attempt_no + 1)) a ≡ q
        → a.attempt_no + 1 < svc.settings.delivery_max_attempts
        → Touches s.db (on_retry svc a (a.attempt_no + 1) r s).1.db
    on_retry-Touches r (ok quiet) e h =
        inr (_, (λ r. refl), on_retry-db (a.attempt_no + 1) r quiet e, retried r quiet open_row h)
    on_retry-Touches r (err x) e h = inl (on_retry-db_refused (a.attempt_no + 1) r e)

    on_result-Touches : (r : DeliveryResult) → Touches s.db (on_result svc a r s).1.db
    unfolding on_result
    on_result-Touches r = elim (Bool-cases r.success) [
      | inl e ↦ rw e (inr (_, (λ r. refl), on_success-db, delivered open_row))
      | inr e ↦
          rw e (elim (Bool-cases (leb svc.settings.delivery_max_attempts (a.attempt_no + 1))) [
            | inl m ↦ rw m (
                inr
                  (_, (λ r. refl), on_dead-db (a.attempt_no + 1) r, died r open_row (ground arith)))
            | inr m ↦ rw m (on_retry-Touches r _ refl (ground arith))
          ])
    ]

module _ (svc : Service) (a : DeliveryAttemptRecord) where
  handed-Touches :
      (provider : Provider) (s : Store) (o : Option DeliveryResult)
      → provider a.user_id a.payload ≡ o
      → s.tx ≡ in_tx
      → is_final svc a.status ≡ false
      → Touches svc a s.db ((provider_send provider a >>= on_result svc a) s).1.db
  unfolding provider_send
  handed-Touches provider s none e in_block open_row = rw (e, provider_send) (inl refl)
  handed-Touches provider s (some r) e in_block open_row =
      rw (e, provider_send) (on_result-Touches svc a _ in_block open_row r)

  deliver-Touches :
      (s : Store) (p : Option Provider)
      → svc.providers a.channel ≡ p
      → s.tx ≡ in_tx
      → is_final svc a.status ≡ false
      → Touches svc a s.db (deliver svc a s).1.db
  unfolding deliver
  deliver-Touches s none e in_block open_row = rw (e, deliver) (inl refl)
  deliver-Touches s (some provider) e in_block open_row =
      rw (e, deliver) (handed-Touches provider s _ refl in_block open_row)

  open_attempt-Touches :
      (s : Store) (q : Outcome (Option ℕ))
      → next_quiet_hours_retry svc.zones svc.now_utc a ≡ q
      → s.tx ≡ in_tx
      → is_final svc a.status ≡ false
      → not_due svc a.next_retry_at ≡ false
      → Touches svc a s.db (attempt_delivery svc a s).1.db
  unfolding attempt_delivery
  open_attempt-Touches s (err x) e in_block open_row due = rw (open_row, due, e) (inl refl)
  open_attempt-Touches s (ok none) e in_block open_row due =
      rw (open_row, due, e) (deliver-Touches s _ refl in_block open_row)
  open_attempt-Touches s (ok (some at)) e in_block open_row due =
      rw (open_row, due, e)
        (inr (_, (λ r. refl), delay-db svc a s in_block open_row at, delayed at open_row e))

  attempt_delivery-Touches :
      (s : Store) → s.tx ≡ in_tx → Touches svc a s.db (attempt_delivery svc a s).1.db
  unfolding attempt_delivery
  attempt_delivery-Touches s in_block = elim (Bool-cases (is_final svc a.status)) [
    | inl final ↦ rw final (inl refl)
    | inr open_row ↦ elim (Bool-cases (not_due svc a.next_retry_at)) [
      | inl later ↦ rw (open_row, later) (inl refl)
      | inr due ↦ open_attempt-Touches s _ refl in_block open_row due
    ]
  ]

  leave-Touches :
      (before : Db) (r : Outcome (Unit {0}) × Store)
      → Touches svc a before r.1.db
      → Touches svc a before (leave before r).1.db
  leave-Touches before (ok x, s) t = leave-ok s.tx s refl t
    where
      leave-ok :
          (x : Tx) (s : Store)
          → s.tx ≡ x
          → Touches svc a before s.db
          → Touches svc a before (leave before (ok tt, s)).1.db
      leave-ok aborted_tx s e t = rw e (inl refl)
      leave-ok in_tx s e t = rw e t
      leave-ok no_tx s e t = rw e t
  leave-Touches before (err x, s) t = inl refl

  execute_send-found :
      (attempt_id : ℕ) (s : Store)
      → find_row (same_id attempt_id) s.db.delivery_attempts ≡ some a
      → execute_send svc attempt_id s
        ≡ leave s.db (attempt_delivery svc a (record s { tx = in_tx }))
  unfolding execute_send get_for_update
  execute_send-found attempt_id s found = ground arith

  -- For an attempt that is found, whether the call returns or raises, the tables are as before, or
  -- one UPDATE of the attempt's row has made it sent, put off by quiet hours, dead or to be
  -- retried, each from a row that was neither sent nor dead, dead only with the last attempt and
  -- retried only with attempts left.
  pub execute_send-Touches :
      (attempt_id : ℕ) (s : Store)
      → find_row (same_id attempt_id) s.db.delivery_attempts ≡ some a
      → Touches svc a s.db (execute_send svc attempt_id s).1.db
  execute_send-Touches attempt_id s found =
      rw (execute_send-found attempt_id s found)
        (leave-Touches s.db _ (attempt_delivery-Touches (record s { tx = in_tx }) refl))

-- A call for an unknown attempt changes no table.
pub execute_send-missing :
    (svc : Service) (attempt_id : ℕ) (s : Store)
    → find_row (same_id attempt_id) s.db.delivery_attempts ≡ none
    → (execute_send svc attempt_id s).1.db ≡ s.db
unfolding execute_send get_for_update
execute_send-missing svc attempt_id s missing = ground arith
