-- ===== src/Delivery/Executor/Skips.antt =====
-- Attempts that are final or not due (services/delivery_executor.py).
use substy.Base.{
  ℕ, ◌≡◌, ◌⊎◌, ◌<◌, ◌≤◌, inl, inr, some, find_row, ok, no_tx, arith, find_row-update, key-find_row,
}
use substy.Delivery.Model.{DeliveryAttemptRecord, sent, dead, Db, Store}
use substy.Delivery.Attempts.{same_id, get_for_update, update_attempt}
use substy.Delivery.Executor.{Service, execute_send, attempt_delivery}

-- At this moment there is nothing to do for the attempt: it was sent, it is dead, or its retry time
-- lies ahead.
abbrev pub IsDone : ℕ → DeliveryAttemptRecord → Type 0
IsDone now a =
    (a.status ≡ sent) ⊎ ((a.status ≡ dead) ⊎ ((at : ℕ) × (a.next_retry_at ≡ some at) × (now < at)))

pub IsDone-earlier :
    (now before : ℕ) (a : DeliveryAttemptRecord) → before ≤ now → IsDone now a → IsDone before a
IsDone-earlier now before a h (inl e) = inl e
IsDone-earlier now before a h (inr (inl e)) = inr (inl e)
IsDone-earlier now before a h (inr (inr (at, e, ahead))) = inr (inr (at, e, omega arith))

-- A call for such an attempt returns and changes nothing.
pub execute_send_skips :
    (svc : Service) (attempt_id : ℕ) (s : Store) (a : DeliveryAttemptRecord)
    → s.tx ≡ no_tx
    → find_row (same_id attempt_id) s.db.delivery_attempts ≡ some a
    → IsDone svc.now_utc a
    → execute_send svc attempt_id s ≡ (ok tt, s)
unfolding execute_send attempt_delivery get_for_update
execute_send_skips svc attempt_id s a idle e (inl h) = ground arith
execute_send_skips svc attempt_id s a idle e (inr (inl h)) = ground arith
execute_send_skips svc attempt_id s a idle e (inr (inr (at, h, ahead))) = ground arith

-- The row that is found after one UPDATE of the attempt.
pub found_after :
    (attempt_id : ℕ) (d : Db) (a : DeliveryAttemptRecord)
    (f : DeliveryAttemptRecord → DeliveryAttemptRecord)
    → find_row (same_id attempt_id) d.delivery_attempts ≡ some a
    → ((r : DeliveryAttemptRecord) → (f r).id ≡ r.id)
    → find_row (same_id attempt_id) (update_attempt a.id f d).delivery_attempts ≡ some (f a)
found_after attempt_id d a f found k =
    rw (find_row-update (λ r. r.id) a.id attempt_id f d.delivery_attempts k)
      (ground (arith, found, key-find_row (λ r. r.id) attempt_id d.delivery_attempts a found))
