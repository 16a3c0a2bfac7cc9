-- ===== src/Delivery/Fanout/Process.antt =====
-- The whole handling of one notification.created event (services/fanout.py).
use mathlib.Core.Path.{subst}
use substy.Base.{
  ℕ, ◌≡◌, ◌⊎◌, refl, ap, inl, inr, Bool, true, false, none, List, [], ◌∷◌, ◌++◌, map, String,
  Outcome, ok, err, Error, in_tx, no_tx, leave, arith, Bool-cases, has_row, >>=-ok, ◌>>◌, pure,
}
use substy.Delivery.Model.{ProcessedEventRecord, Db, Store}
use substy.Delivery.Metrics.{Counters, inc_jetstream_processed, inc_attempts_created}
use substy.Delivery.Processed.{same_event, try_mark_processed}
use substy.Delivery.Effects.{update_metrics}
use substy.Delivery.Fanout.{
  NotificationCreatedEvent, SubscriberItem, FanoutService, fan_pages, count_created, process_new,
  process_notification_created,
}
use substy.Delivery.Fanout.Wanted.{Wanted, pending_row, send_job, wanted, Pages}
use substy.Delivery.Fanout.Refines.{Grew, fan_pages-Grew}

pub count_created-db :
    (svc : FanoutService) (event : NotificationCreatedEvent) (counts : Counters) (s : Store)
    → ((count_created svc event counts s).0 ≡ ok tt)
      × ((count_created svc event counts s).1.db ≡ s.db)
      × ((count_created svc event counts s).1.tx ≡ s.tx)
      × ((count_created svc event counts s).1.world.jobs ≡ s.world.jobs)
unfolding count_created
count_created-db svc event [] s = (refl, refl, refl, refl)
count_created-db svc event ((channel, value) ∷ counts) s =
    count_created-db svc event counts (record s {
      world = record s.world { metrics = inc_attempts_created channel value s.world.metrics };
    })

module _ (svc : FanoutService) (event : NotificationCreatedEvent) where
  open svc use {env}

  abbrev pub event_row : String → ProcessedEventRecord
  event_row subject = record {
    event_id = event.event_id;
    subject = subject;
    processed_at = env.db_now;
  }

  -- The event was new: it is recorded, and each wanted attempt was added with one job.
  pub record Created (subject : String) (ws : List Wanted) (s t : Store) : Type 0 where
    pub new : List (ℕ × Wanted)
    pub as_wanted : map (λ n. n.1) new ≡ ws
    pub attempts : t.db.delivery_attempts ≡ s.db.delivery_attempts ++ map (pending_row env) new
    pub processed : t.db.processed_events ≡ s.db.processed_events ++ event_row subject ∷ []
    pub block : t.tx ≡ no_tx
    pub jobs : t.world.jobs ≡ s.world.jobs ++ map send_job new

  process_new-Grew :
      (n fuel : ℕ) (subs : List SubscriberItem) (s t : Store) (b : Bool)
      → Pages svc event.topic_id n none subs
      → s.tx ≡ in_tx
      → process_new svc event fuel s ≡ (ok b, t)
      → Grew svc event (wanted svc event subs) s t × (b ≡ true)
  unfolding process_new
  process_new-Grew n fuel subs s t b p block h =
      let (counts, s', first, rest) =
        >>=-ok (fan_pages svc event fuel none [])
          (λ counts.
            count_created svc event counts >> (update_metrics inc_jetstream_processed >> pure true))
          s h in
      let grew = fan_pages-Grew svc event n fuel none subs [] s s' counts p block first in
      let kept = count_created-db svc event counts s' in
      let after = ends counts s' rest kept in
      (
        record {
          new = grew.new;
          as_wanted = grew.as_wanted;
          attempts = cc (ap (λ (d : Db). d.delivery_attempts) after.0, grew.attempts);
          processed = cc (ap (λ (d : Db). d.processed_events) after.0, grew.processed);
          block = cc (after.1, grew.block);
          jobs = cc (after.2, grew.jobs);
        },
        after.3,
      )
    where
      ends :
          (counts : Counters) (s' : Store)
          → (count_created svc event counts
                >> (update_metrics inc_jetstream_processed >> pure true))
              s'
            ≡ (ok b, t)
          → ((count_created svc event counts s').0 ≡ ok tt)
            × ((count_created svc event counts s').1.db ≡ s'.db)
            × ((count_created svc event counts s').1.tx ≡ s'.tx)
            × ((count_created svc event counts s').1.world.jobs ≡ s'.world.jobs)
          → (t.db ≡ s'.db) × (t.tx ≡ s'.tx) × (t.world.jobs ≡ s'.world.jobs) × (b ≡ true)
      ends counts s' h k = ground arith

  -- The state in which the fan-out of a new event starts.
  abbrev pub recorded : String → Store → Store
  recorded subject s = record s {
    db = record s.db { processed_events = s.db.processed_events ++ event_row subject ∷ [] };
    tx = in_tx;
  }

  process-seen :
      (fuel : ℕ) (subject : String) (s : Store)
      → s.tx ≡ no_tx
      → has_row (same_event event.event_id) s.db.processed_events ≡ true
      → process_notification_created svc event fuel subject s ≡ (ok false, s)
  unfolding process_notification_created try_mark_processed
  process-seen fuel subject s idle seen = ground arith

  pub process-unseen :
      (fuel : ℕ) (subject : String) (s : Store)
      → s.tx ≡ no_tx
      → has_row (same_event event.event_id) s.db.processed_events ≡ false
      → process_notification_created svc event fuel subject s
        ≡ leave s.db (process_new svc event fuel (recorded subject s))
  unfolding process_notification_created try_mark_processed
  process-unseen fuel subject s idle new = ground arith

  -- What one call may do.
  abbrev pub Handled : String → List Wanted → Store → Outcome Bool × Store → Type 0
  Handled subject ws s r =
      ((r.0 ≡ ok false)
        × (has_row (same_event event.event_id) s.db.processed_events ≡ true)
        × (r.1 ≡ s))
      ⊎ ((r.0 ≡ ok true)
          × (has_row (same_event event.event_id) s.db.processed_events ≡ false)
          × Created subject ws s r.1)
      ⊎ ((e : Error) × (r.0 ≡ err e)
          × (has_row (same_event event.event_id) s.db.processed_events ≡ false)
          × (r.1.db ≡ s.db)
          × (r.1.tx ≡ no_tx))

  leave-Handled :
      (n fuel : ℕ) (subject : String) (subs : List SubscriberItem) (s : Store)
      (r : Outcome Bool × Store)
      → Pages svc event.topic_id n none subs
      → has_row (same_event event.event_id) s.db.processed_events ≡ false
      → process_new svc event fuel (recorded subject s) ≡ r
      → Handled subject (wanted svc event subs) s (leave s.db r)
  leave-Handled n fuel subject subs s (ok b, t) p new e =
      let (grew, returned) = process_new-Grew n fuel subs (recorded subject s) t b p refl e in
      rw (returned, grew.block)
        (inr (
          inl (
            refl,
            new,
            record {
              new = grew.new;
              as_wanted = grew.as_wanted;
              attempts = grew.attempts;
              processed = grew.processed;
              block = refl;
              jobs = grew.jobs;
            },
          )))
  leave-Handled n fuel subject subs s (err x, t) p new e = inr (inr (x, refl, new, refl, refl))

  -- The handling of an event, on every branch, for an idle session and a subscriptions service
  -- whose pages end. If the event is recorded already, the call returns False and changes nothing.
  -- Otherwise it returns True, and then the event is recorded and the attempts added are exactly
  -- those wanted for the subscribers of all pages, in order, pending and with one send job each;
  -- or it raises, and then the tables are as before.
  pub process_notification_created_lem :
      (n fuel : ℕ) (subject : String) (subs : List SubscriberItem) (s : Store)
      → s.tx ≡ no_tx
      → Pages svc event.topic_id n none subs
      → Handled subject
          (wanted svc event subs)
          s
          (process_notification_created svc event fuel subject s)
  process_notification_created_lem n fuel subject subs s idle p =
      elim (Bool-cases (has_row (same_event event.event_id) s.db.processed_events)) [
        | inl seen ↦ rw (process-seen fuel subject s idle seen) (inl (refl, seen, refl))
        | inr new ↦
            rw (process-unseen fuel subject s idle new)
              (leave-Handled n fuel subject subs s _ p new refl)
      ]

has_row-append_self :
    (i : ℕ) (xs : List ProcessedEventRecord) (e : ProcessedEventRecord)
    → e.event_id ≡ i
    → has_row (same_event i) (xs ++ e ∷ []) ≡ true
has_row-append_self i [] e h = ground arith
has_row-append_self i (x ∷ xs) e h = ground (arith, has_row-append_self i xs e h)

-- Redelivery is harmless: after a call in an idle session that returned True, with pages that end,
-- any delivery of the event from the store that it left, under whatever subject and answers of the
-- environment, returns False and changes nothing.
pub process_notification_created_twice :
    (svc later : FanoutService) (event : NotificationCreatedEvent) (n fuel fuel' : ℕ)
    (subject subject' : String) (subs : List SubscriberItem) (s t : Store)
    → s.tx ≡ no_tx
    → Pages svc event.topic_id n none subs
    → process_notification_created svc event fuel subject s ≡ (ok true, t)
    → process_notification_created later event fuel' subject' t ≡ (ok false, t)
process_notification_created_twice svc later event n fuel fuel' subject subject' subs s t idle p h =
    created (
      subst (Handled svc event subject (wanted svc event subs) s) h
        (process_notification_created_lem svc event n fuel subject subs s idle p))
  where
    created :
        Handled svc event subject (wanted svc event subs) s (ok true, t)
        → process_notification_created later event fuel' subject' t ≡ (ok false, t)
    created (inl (e, _, _)) = cc
    created (inr (inl (_, _, c))) =
        process-seen later event fuel' subject' t c.block
          (rw c.processed (has_row-append_self event.event_id s.db.processed_events _ refl))
    created (inr (inr (e, r, _, _, _))) = cc
