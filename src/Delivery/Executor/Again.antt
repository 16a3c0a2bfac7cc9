-- ===== src/Delivery/Executor/Again.antt =====
-- A job that the queue delivers twice (services/delivery_executor.py).
use substy.Base.{
  ℕ, ◌+◌, ◌≡◌, refl, ◌<◌, ◌≤◌, inl, inr, true, false, Option, none, some, find_row, Error, Outcome,
  ok, err, no_tx, arith, Bool-cases, Option-cases, leb,
}
use substy.Delivery.Model.{
  DeliveryAttemptRecord, Status, pending, sent, failed, dead, Store, DeliveryResult,
}
use substy.Delivery.Attempts.{
  same_id, update_attempt, sent_row, failed_row, delayed_row, get_for_update, mark_delayed,
  mark_sent, mark_failed,
}
use substy.Delivery.Executor.{
  Service, Provider, execute_send, is_final, not_due, attempt_delivery, deliver, on_result,
  on_success, on_dead, on_retry, delay_for_quiet_hours, next_quiet_hours_retry, provider_send,
  result_code, result_message, later_retry, backoff_end,
}
use substy.Delivery.Executor.Skips.{IsDone, IsDone-earlier, execute_send_skips, found_after}
use substy.Delivery.Executor.Ahead.{
  backoff_end_bounds, later_retry-le, next_quiet_hours_retry-ahead,
}
use substy.Delivery.Effects.{publish_json, enqueue_job, uuid4}

module _ (svc : Service) (attempt_id : ℕ) (s : Store) (a : DeliveryAttemptRecord) where
  open svc use {settings, env, now_utc}

  -- After the call the session is idle and there is nothing to do for the attempt.
  abbrev pub Settled : Store → Type 0
  Settled t =
      (t.tx ≡ no_tx)
      × ((r : DeliveryAttemptRecord) × (find_row (same_id attempt_id) t.db.delivery_attempts
            ≡ some r)
          × IsDone now_utc r)

  Settled-updated :
      (f : DeliveryAttemptRecord → DeliveryAttemptRecord) (t : Store)
      → find_row (same_id attempt_id) s.db.delivery_attempts ≡ some a
      → ((r : DeliveryAttemptRecord) → (f r).id ≡ r.id)
      → (t.db ≡ update_attempt a.id f s.db) × (t.tx ≡ no_tx)
      → IsDone now_utc (f a)
      → Settled t
  Settled-updated f t found k e done =
      (e.1, (f a, rw e.0 (found_after attempt_id s.db a f found k), done))

  module _ (found : find_row (same_id attempt_id) s.db.delivery_attempts ≡ some a)
      (idle : s.tx ≡ no_tx) (open_row : is_final svc a.status ≡ false)
      (due : not_due svc a.next_retry_at ≡ false)
      (ends : (execute_send svc attempt_id s).0 ≡ ok tt) where
    delayed-db :
        (at : ℕ)
        → next_quiet_hours_retry svc.zones now_utc a ≡ ok (some at)
        → ((execute_send svc attempt_id s).1.db
            ≡ update_attempt a.id
                (delayed_row env at "quiet_hours" "Delivery delayed due to quiet hours")
                s.db)
          × ((execute_send svc attempt_id s).1.tx ≡ no_tx)
    unfolding execute_send get_for_update attempt_delivery delay_for_quiet_hours mark_delayed
        enqueue_job
    delayed-db at e = ground (arith, found, idle, open_row, due, ends)

    quiet_fails : (x : Error) → next_quiet_hours_retry svc.zones now_utc a ≡ err x → ⊥
    unfolding execute_send get_for_update attempt_delivery
    quiet_fails x e = ground (arith, found, idle, open_row, due, ends)

    module _ (not_quiet : next_quiet_hours_retry svc.zones now_utc a ≡ ok none) where
      provider_missing : svc.providers a.channel ≡ none → ⊥
      unfolding execute_send get_for_update attempt_delivery deliver
      provider_missing e = ground (arith, found, idle, open_row, due, ends)

      module _ (provider : Provider) (configured : svc.providers a.channel ≡ some provider) where
        provider_fails : provider a.user_id a.payload ≡ none → ⊥
        unfolding execute_send get_for_update attempt_delivery deliver provider_send
        provider_fails e = ground (arith, found, idle, open_row, due, ends)

        module _ (r : DeliveryResult) (answer : provider a.user_id a.payload ≡ some r) where
          delivered-db :
              r.success ≡ true
              → ((execute_send svc attempt_id s).1.db ≡ update_attempt a.id (sent_row env) s.db)
                × ((execute_send svc attempt_id s).1.tx ≡ no_tx)
          unfolding execute_send get_for_update attempt_delivery deliver provider_send on_result
              on_success mark_sent uuid4 publish_json
          delivered-db success = ground (arith, found, idle, open_row, due, ends)

          dead-db :
              r.success ≡ false
              → settings.delivery_max_attempts ≤ a.attempt_no + 1
              → ((execute_send svc attempt_id s).1.db
                  ≡ update_attempt a.id
                      (failed_row env
                        (a.attempt_no + 1)
                        (result_code svc r)
                        (result_message svc r)
                        none
                        true)
                      s.db)
                × ((execute_send svc attempt_id s).1.tx ≡ no_tx)
          unfolding execute_send get_for_update attempt_delivery deliver provider_send on_result
              on_dead mark_failed uuid4 publish_json
          dead-db failure last = ground (arith, found, idle, open_row, due, ends)

          retry_fails :
              (x : Error)
              → r.success ≡ false
              → a.attempt_no + 1 < settings.delivery_max_attempts
              → next_quiet_hours_retry svc.zones (backoff_end svc (a.attempt_no + 1)) a ≡ err x
              → ⊥
          unfolding execute_send get_for_update attempt_delivery deliver provider_send on_result
              on_retry
          retry_fails x failure below e = ground (arith, found, idle, open_row, due, ends)

          retried-db :
              (quiet : Option ℕ)
              → r.success ≡ false
              → a.attempt_no + 1 < settings.delivery_max_attempts
              → next_quiet_hours_retry svc.zones (backoff_end svc (a.attempt_no + 1)) a ≡ ok quiet
              → (at : ℕ) → at ≡ later_retry svc (backoff_end svc (a.attempt_no + 1)) quiet
              → ((execute_send svc attempt_id s).1.db
                  ≡ update_attempt a.id
                      (failed_row env
                        (a.attempt_no + 1)
                        (result_code svc r)
                        (result_message svc r)
                        (some at)
                        false)
                      s.db)
                × ((execute_send svc attempt_id s).1.tx ≡ no_tx)
          unfolding execute_send get_for_update attempt_delivery deliver provider_send on_result
              on_retry mark_failed enqueue_job
          retried-db quiet failure below later at e =
              ground (arith, found, idle, open_row, due, ends)

    -- The waits are positive, and the draw is one that `randint` may give.
    module _ (base : 1 ≤ settings.delivery_base_delay_seconds)
        (top : 1 ≤ settings.delivery_max_delay_seconds)
        (draw : env.randint settings.delivery_retry_jitter_seconds
          ≤ settings.delivery_retry_jitter_seconds) where
      answered-Settled :
          (provider : Provider) (r : DeliveryResult)
          → next_quiet_hours_retry svc.zones now_utc a ≡ ok none
          → svc.providers a.channel ≡ some provider
          → provider a.user_id a.payload ≡ some r
          → Settled (execute_send svc attempt_id s).1
      answered-Settled provider r free configured answer = elim (Bool-cases r.success) [
        | inl success ↦
            Settled-updated (sent_row env) (execute_send svc attempt_id s).1 found (λ x. refl)
              (delivered-db free provider configured r answer success) (inl refl)
        | inr failure ↦ elim (Bool-cases (leb settings.delivery_max_attempts (a.attempt_no + 1))) [
          | inl last ↦
              Settled-updated _ (execute_send svc attempt_id s).1 found (λ x. refl)
                (dead-db free provider configured r answer failure (ground arith)) (inr (inl refl))
          | inr below ↦ retried failure (ground arith) _ refl
        ]
      ]
        where
          retried :
              r.success ≡ false
              → a.attempt_no + 1 < settings.delivery_max_attempts
              → (q : Outcome (Option ℕ))
              → next_quiet_hours_retry svc.zones (backoff_end svc (a.attempt_no + 1)) a ≡ q
              → Settled (execute_send svc attempt_id s).1
          retried failure below (err x) e =
              absurd (retry_fails free provider configured r answer x failure below e)
          retried failure below (ok quiet) e =
              let chosen = later_retry svc (backoff_end svc (a.attempt_no + 1)) quiet in
              let waits = backoff_end_bounds svc draw (a.attempt_no + 1) in
              let later = later_retry-le svc (backoff_end svc (a.attempt_no + 1)) quiet in
              Settled-updated _ (execute_send svc attempt_id s).1 found (λ x. refl)
                (retried-db free provider configured r answer quiet failure below e chosen refl)
                (inr (inr (chosen, refl, omega arith)))

      free-Settled :
          next_quiet_hours_retry svc.zones now_utc a ≡ ok none
          → (p : Option Provider) → svc.providers a.channel ≡ p
          → Settled (execute_send svc attempt_id s).1
      free-Settled free none e = absurd (provider_missing free e)
      free-Settled free (some provider) e = elim (Option-cases (provider a.user_id a.payload)) [
        | inl raised ↦ absurd (provider_fails free provider e raised)
        | inr (r, answer) ↦ answered-Settled provider r free e answer
      ]

      due-Settled :
          (q : Outcome (Option ℕ))
          → next_quiet_hours_retry svc.zones now_utc a ≡ q
          → Settled (execute_send svc attempt_id s).1
      due-Settled (err x) e = absurd (quiet_fails x e)
      due-Settled (ok none) e = free-Settled e _ refl
      due-Settled (ok (some at)) e =
          Settled-updated _ (execute_send svc attempt_id s).1 found (λ x. refl) (delayed-db at e)
            (inr (inr (at, refl, next_quiet_hours_retry-ahead svc a now_utc at e)))

-- Any call that returned, whichever branch it took.
returned-Settled :
    (svc : Service) (attempt_id : ℕ) (s : Store) (a : DeliveryAttemptRecord)
    → find_row (same_id attempt_id) s.db.delivery_attempts ≡ some a
    → s.tx ≡ no_tx
    → 1 ≤ svc.settings.delivery_base_delay_seconds
    → 1 ≤ svc.settings.delivery_max_delay_seconds
    → svc.env.randint svc.settings.delivery_retry_jitter_seconds
      ≤ svc.settings.delivery_retry_jitter_seconds
    → (execute_send svc attempt_id s).0 ≡ ok tt
    → Settled svc attempt_id s a (execute_send svc attempt_id s).1
returned-Settled svc attempt_id s a found idle base top draw ends =
    elim (Bool-cases (is_final svc a.status)) [
      | inl final ↦ unchanged (by_status a.status refl final)
      | inr open_row ↦ elim (Bool-cases (not_due svc a.next_retry_at)) [
        | inl later ↦ unchanged (inr (inr (by_time a.next_retry_at refl later)))
        | inr due ↦ due-Settled svc attempt_id s a found idle open_row due ends base top draw _ refl
      ]
    ]
  where
    unchanged : IsDone svc.now_utc a → Settled svc attempt_id s a (execute_send svc attempt_id s).1
    unchanged done =
        rw (execute_send_skips svc attempt_id s a idle found done) (idle, (a, found, done))

    by_status : (st : Status) → a.status ≡ st → is_final svc a.status ≡ true → IsDone svc.now_utc a
    by_status pending e h = ground arith
    by_status failed e h = ground arith
    by_status sent e h = inl e
    by_status dead e h = inr (inl e)

    by_time :
        (next : Option ℕ)
        → a.next_retry_at ≡ next
        → not_due svc a.next_retry_at ≡ true
        → (at : ℕ) × (a.next_retry_at ≡ some at) × (svc.now_utc < at)
    by_time none e h = ground arith
    by_time (some at) e h = (at, e, ground arith)

-- A job may be delivered twice: once a call in an idle session has returned, whichever branch it
-- took, the attempt that it found is sent, dead or to be retried at a time ahead, and a second call
-- for it, from the store that the first left, at a time up to that of the first and with whatever
-- providers and answers of the environment, returns and changes nothing. This holds where the delays
-- are at least a second and the draw is within the jitter.
pub execute_send_again :
    (svc again : Service) (attempt_id : ℕ) (s : Store) (a : DeliveryAttemptRecord)
    → find_row (same_id attempt_id) s.db.delivery_attempts ≡ some a
    → s.tx ≡ no_tx
    → 1 ≤ svc.settings.delivery_base_delay_seconds
    → 1 ≤ svc.settings.delivery_max_delay_seconds
    → svc.env.randint svc.settings.delivery_retry_jitter_seconds
      ≤ svc.settings.delivery_retry_jitter_seconds
    → (execute_send svc attempt_id s).0 ≡ ok tt
    → again.now_utc ≤ svc.now_utc
    → let s' = (execute_send svc attempt_id s).1 in
      ((r : DeliveryAttemptRecord) × (find_row (same_id attempt_id) s'.db.delivery_attempts
          ≡ some r)
        × IsDone svc.now_utc r)
      × (execute_send again attempt_id s' ≡ (ok tt, s'))
execute_send_again svc again attempt_id s a found idle base top draw ends not_later =
    let settled = returned-Settled svc attempt_id s a found idle base top draw ends in
    let r = settled.1.0 in
    (
      settled.1,
      execute_send_skips again attempt_id _ r settled.0 settled.1.1
          (IsDone-earlier svc.now_utc again.now_utc r not_later settled.1.2),
    )
