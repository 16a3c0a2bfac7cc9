-- ===== src/Notifications/Publisher/Delivered.antt =====
-- The events marked published, and those that JetStream took (services/outbox_publisher.py).
use mathlib.Core.Path.{subst}
use substy.Base.{
  sym, ℕ, ◌≡◌, refl, true, ◌||◌, Option, none, some, List, [], ◌∷◌, ◌++◌, String, All, All-mono,
  All-update_where, arith, has_row, has_row-append, Outcome, ok, err, Tx, no_tx, in_tx, aborted_tx,
  leave, ◌>>=◌, Preserves, >>=-Preserves,
}
use substy.Notifications.Model.{OutboxEventRecord, Db, Store, Env}
use substy.Notifications.Outbox.{
  same_event, is_unpublished, update_event, published_row, failed_row, lock_unpublished_batch,
  mark_published, mark_failed, count_unpublished,
}
use substy.Notifications.Service.{update_metrics}
use substy.Notifications.Publisher.{
  publish_answer, publish_event, publish_events, publish_batch, set_outbox_unpublished_count,
}

-- The event is unpublished, or one with its id was taken.
abbrev pub IsTaken : List OutboxEventRecord → OutboxEventRecord → Type 0
IsTaken taken e = (is_unpublished e || has_row (same_event e.id) taken) ≡ true

abbrev pub AreTaken : List OutboxEventRecord → Db → Type 0
AreTaken taken d = All (IsTaken taken) d.outbox_events

taken_more :
    (taken : List OutboxEventRecord) (x : OutboxEventRecord) (d : Db)
    → AreTaken taken d
    → AreTaken (taken ++ x ∷ []) d
taken_more taken x d =
    All-mono (IsTaken taken) (IsTaken (taken ++ x ∷ [])) d.outbox_events
      (λ e h. rw (has_row-append (same_event e.id) taken (x ∷ [])) (ground (arith, h)))

has_row-append_last :
    (taken : List OutboxEventRecord) (e : OutboxEventRecord)
    → has_row (same_event e.id) (taken ++ e ∷ []) ≡ true
has_row-append_last taken e = rw (has_row-append (same_event e.id) taken (e ∷ [])) (ground arith)

published-AreTaken :
    (env : Env) (i : ℕ) (taken : List OutboxEventRecord) (d : Db)
    → has_row (same_event i) taken ≡ true
    → AreTaken taken d
    → AreTaken taken (update_event i (published_row env) d)
published-AreTaken env i taken d h =
    All-update_where (IsTaken taken) (same_event i) (published_row env) d.outbox_events
      (λ e hit k. same_id e (ground (arith, hit)))
  where
    same_id : (e : OutboxEventRecord) → e.id ≡ i → IsTaken taken (published_row env e)
    same_id e at_i = rw at_i h

failed-AreTaken :
    (i : ℕ) (message : String) (taken : List OutboxEventRecord) (d : Db)
    → AreTaken taken d
    → AreTaken taken (update_event i (failed_row message) d)
failed-AreTaken i message taken d =
    All-update_where (IsTaken taken) (same_event i) (failed_row message) d.outbox_events
      (λ e hit k. k)

module _ (env : Env) (before : Db) where
  -- What holds throughout a batch, of the tables now and of those that a rollback brings back.
  abbrev Throughout : Store → Type 0
  Throughout s = AreTaken s.world.published before × AreTaken s.world.published s.db

  publish_answer-Throughout :
      (e : OutboxEventRecord) (o : Option String) → Preserves Throughout (publish_answer env e o)
  unfolding publish_answer mark_published mark_failed
  publish_answer-Throughout e none s (h, k) = by_session s.tx refl
    where
      more : List OutboxEventRecord
      more = s.world.published ++ e ∷ []

      by_session : (x : Tx) → s.tx ≡ x → Throughout (publish_answer env e none s).1
      by_session no_tx q = rw q (
        taken_more s.world.published e before h,
        published-AreTaken env e.id more s.db (has_row-append_last s.world.published e)
            (taken_more s.world.published e s.db k),
      )
      by_session in_tx q = rw q (
        taken_more s.world.published e before h,
        published-AreTaken env e.id more s.db (has_row-append_last s.world.published e)
            (taken_more s.world.published e s.db k),
      )
      by_session aborted_tx q =
          rw q (taken_more s.world.published e before h, taken_more s.world.published e s.db k)
  publish_answer-Throughout e (some message) s (h, k) = by_session s.tx refl
    where
      by_session : (x : Tx) → s.tx ≡ x → Throughout (publish_answer env e (some message) s).1
      by_session no_tx q = rw q (h, failed-AreTaken e.id message s.world.published s.db k)
      by_session in_tx q = rw q (h, failed-AreTaken e.id message s.world.published s.db k)
      by_session aborted_tx q = rw q (h, k)

  publish_events-Throughout :
      (es : List OutboxEventRecord) → Preserves Throughout (publish_events env es)
  unfolding publish_events publish_event
  publish_events-Throughout [] s h = h
  publish_events-Throughout (e ∷ es) s h =
      >>=-Preserves Throughout (publish_answer env e (env.publish_error e))
        (λ _. publish_events env es) (publish_answer-Throughout e (env.publish_error e))
        (λ _. publish_events-Throughout es) s h

  leave-Throughout :
      {A : Type 0} (r : Outcome A × Store)
      → Throughout r.1
      → AreTaken (leave before r).1.world.published (leave before r).1.db
  leave-Throughout (err e, s) (h, k) = h
  leave-Throughout (ok a, s) (h, k) = by_session s.tx
    where
      ended : Tx → Store
      ended x = elim x as (λ _. Store) [
        | aborted_tx ↦ record s { db = before; tx = no_tx }
        | _ ↦ record s { tx = no_tx }
      ]

      by_session : (x : Tx) → AreTaken (ended x).world.published (ended x).db
      by_session no_tx = k
      by_session in_tx = k
      by_session aborted_tx = h

locking-same : (env : Env) (n : ℕ) (s : Store) → (lock_unpublished_batch env n s).1 ≡ s
unfolding lock_unpublished_batch
locking-same env n s = ground arith

counting-same : (s : Store) → (count_unpublished s).1 ≡ s
unfolding count_unpublished
counting-same s = ground arith

-- No event counts as published that JetStream has not taken: if every event with a publishing time is
-- among those taken before a batch, it is so after it, whichever events JetStream refuses and whether
-- the batch is committed or rolled back.
pub publish_batch-AreTaken :
    (env : Env) (s : Store)
    → AreTaken s.world.published s.db
    → AreTaken (publish_batch env s).1.world.published (publish_batch env s).1.db
unfolding publish_batch
publish_batch-AreTaken env s k =
    let through = Throughout env s.db in
    let gauge = λ (n : ℕ). update_metrics (set_outbox_unpublished_count n) in
    let counted = λ (u : Unit {0}). count_unpublished >>= gauge in
    let publishing = λ (es : List OutboxEventRecord). publish_events env es >>= counted in
    leave-Throughout env s.db _ (
      >>=-Preserves through (lock_unpublished_batch env env.settings.outbox_batch_size) publishing
        (λ t h. subst through (sym (locking-same env env.settings.outbox_batch_size t)) h)
        (λ es.
          >>=-Preserves through (publish_events env es) counted
            (publish_events-Throughout env s.db es)
            (λ u.
              >>=-Preserves through count_unpublished gauge
                (λ t h. subst through (sym (counting-same t)) h) (λ n t h. h)))
        (record s { tx = in_tx }) (k, k))
