-- ===== src/Notifications/Consistency/Tick.antt =====
-- The outbox invariant over a tick (services/scheduler_service.py).
use mathlib.Core.Path.{subst}
use substy.Base.{
  ℕ, ◌≡◌, refl, sym, ap, ◌∙◌, inl, inr, Bool, true, List, [], ◌∷◌, ◌++◌, String, ok, map, All,
  All-append, All-mono, All-map, All-of_map, All-both, All-rows_where, All-sort_by, ◌==◌,
  if◌then◌else◌, has_row, count_where, update_where, rows_where, sort_by, arith, Bool-cases,
  UniqueKeys-update, All-has_key, count_chosen, count_where-append, count_where-map,
  count_where-sort_by, has_row-update, pure, in_tx, statement-ok, answer_of, ◌>>=◌, ◌>>◌, >>=-ok,
  leave-Keeps_ok, Keeps, >>=-Keeps, statement-Keeps,
}
use substy.Notifications.Model.{
  NotificationRecord, Status, created, scheduled, queued, cancelled, OutboxEventRecord, Db, Store,
  Env,
}
use substy.Notifications.Repository.{
  same_id, notification_id, is_scheduled, with_status, to_queue, scheduled_before,
  lock_due_scheduled_batch, mark_queued_by_ids, count_scheduled_backlog, count_scheduled_due,
}
use substy.Notifications.Outbox.{create_event, insert_event}
use substy.Notifications.Service.{uuid4, created_event}
use substy.Notifications.Scheduler.{
  create_events, queue_due, run_one_tick, report, scheduler_headers,
}
use substy.Notifications.Consistency.{IsConsistent, HasEvents, IsKnown, about, expected}

abbrev aggregate : OutboxEventRecord → ℕ
aggregate e = e.aggregate_id

abbrev with_events : List OutboxEventRecord → Db → Db
with_events es d = record d { outbox_events = d.outbox_events ++ es }

++-assoc : (xs ys zs : List OutboxEventRecord) → (xs ++ ys) ++ zs ≡ xs ++ (ys ++ zs)
++-assoc [] ys zs = refl
++-assoc (x ∷ xs) ys zs = ap (λ l. x ∷ l) (++-assoc xs ys zs)

-- What the loop over the queued notifications adds when it returns: an event for each.
abbrev Announces : List NotificationRecord → Store → Store → Type 0
Announces ns s t =
    (es : List OutboxEventRecord) × (t.db ≡ with_events es s.db)
    × (map aggregate es ≡ map notification_id ns)

++-nil : (xs : List OutboxEventRecord) → xs ++ [] ≡ xs
++-nil [] = refl
++-nil (x ∷ xs) = ap (λ l. x ∷ l) (++-nil xs)

create_event_ok :
    (e a : OutboxEventRecord) (s t : Store)
    → create_event e s ≡ (ok a, t)
    → t.db ≡ insert_event e s.db
unfolding create_event
create_event_ok e a s t h = ground arith

module _ (env : Env) (request_id : String) where
  create_events-Announces :
      (ns : List NotificationRecord) (s t : Store)
      → create_events env request_id ns s ≡ (ok tt, t)
      → Announces ns s t
  unfolding create_events uuid4
  create_events-Announces [] s t h = (
    [],
    sym (ap (λ r. r.1.db) h)
        ∙ ap (λ l. record s.db { outbox_events = l }) (sym (++-nil s.db.outbox_events)),
    refl,
  )
  create_events-Announces (n ∷ ns) s t h =
      let event = λ (i : ℕ). created_event env i (scheduler_headers env request_id n) n in
      let rest = λ (e : OutboxEventRecord). create_events env request_id ns in
      let (i, s1, drawn, h1) = >>=-ok (uuid4 env) (λ i. create_event (event i) >>= rest) s h in
      let (e, s2, stored, h2) = >>=-ok (create_event (event i)) rest s1 h1 in
      let (es, grown, named) = create_events-Announces ns s2 t h2 in
      let at_s2 : s2.db ≡ insert_event (event i) s.db =
        create_event_ok (event i) e s1 s2 stored
        ∙ ap (λ r. insert_event (event i) r.1.db) (sym drawn) in
      (
        event i ∷ es,
        grown
            ∙ ap (with_events es) at_s2
            ∙ ap (λ l. record s.db { outbox_events = l })
                (++-assoc s.db.outbox_events (event i ∷ []) es),
        ap (λ l. n.id ∷ l) named,
      )

-- Rows that an UPDATE changes, and those that it passes over.
All-updated :
    (P Q : NotificationRecord → Type 0) (p : NotificationRecord → Bool)
    (f : NotificationRecord → NotificationRecord) (ns : List NotificationRecord)
    → ((n : NotificationRecord) → P n → Q (if p n then f n else n))
    → All P ns
    → All Q (update_where p f ns)
All-updated P Q p f [] k h = tt
All-updated P Q p f (n ∷ ns) k h = (k n h.0, All-updated P Q p f ns k h.1)

silent : (st : Status) → is_scheduled st ≡ true → expected st ≡ 0
silent scheduled h = refl
silent created h = cc
silent queued h = cc
silent cancelled h = cc

module _ (env : Env) (ids : List ℕ) (d : Db) where
  abbrev queue_row : NotificationRecord → NotificationRecord
  queue_row = with_status env queued

  -- The rows that the UPDATE of a tick returns, and the table that it leaves.
  abbrev queued_rows : List NotificationRecord
  queued_rows = sort_by scheduled_before (map queue_row (rows_where (to_queue ids) d.notifications))

  abbrev queued_table : Db
  queued_table = record d { notifications = update_where (to_queue ids) queue_row d.notifications }

  module _ (es : List OutboxEventRecord)
      (named : map aggregate es ≡ map notification_id queued_rows) where
    -- Every queued row has one new event, and no other row has any.
    new_events :
        (i : ℕ)
        → count_where (about i) es
          ≡ count_where (same_id i) (rows_where (to_queue ids) d.notifications)
    new_events i =
        sym (count_where-map (λ j. j == i) aggregate es)
        ∙ ap (count_where (λ j. j == i)) named
        ∙ count_where-map (λ j. j == i) notification_id queued_rows
        ∙ count_where-sort_by (same_id i) scheduled_before _
        ∙ count_where-map (same_id i) queue_row _

    queue-IsConsistent : IsConsistent d → IsConsistent (with_events es queued_table)
    queue-IsConsistent c = record {
      unique =
          UniqueKeys-update notification_id (to_queue ids) queue_row d.notifications (λ n. refl)
            c.unique;
      announced =
          All-updated _ (HasEvents (d.outbox_events ++ es)) (to_queue ids) queue_row d.notifications
            announce
            (All-both (HasEvents d.outbox_events) _ Counted d.notifications (λ n h k. (h, k))
              c.announced (count_chosen notification_id (to_queue ids) d.notifications c.unique));
      known =
          All-append (IsKnown queued_table.notifications) d.outbox_events es
            (All-mono (IsKnown d.notifications) _ d.outbox_events still_there c.known)
            (All-mono (IsKnown d.notifications) _ es still_there fresh_known);
    }
      where
        Counted : NotificationRecord → Type 0
        Counted n =
            HasEvents d.outbox_events n
            × (count_where (same_id n.id) (rows_where (to_queue ids) d.notifications)
                ≡ (if to_queue ids n then 1 else 0))

        announce :
            (n : NotificationRecord)
            → Counted n
            → HasEvents (d.outbox_events ++ es) (if to_queue ids n then queue_row n else n)
        announce n (h, k) = elim (Bool-cases (to_queue ids n)) [
          | inl hit ↦ rw hit (
              count_where-append (about n.id) d.outbox_events es
              ∙ ground (arith, h, new_events n.id, k, hit, silent n.status (ground arith)))
          | inr miss ↦ rw miss (
              count_where-append (about n.id) d.outbox_events es
              ∙ ground (arith, h, new_events n.id, k, miss))
        ]

        still_there :
            (e : OutboxEventRecord)
            → IsKnown d.notifications e
            → IsKnown queued_table.notifications e
        still_there e k =
            has_row-update (same_id e.aggregate_id) (to_queue ids) queue_row d.notifications
              (λ n. refl)
            ∙ k

        fresh_known : All (IsKnown d.notifications) es
        fresh_known =
            All-of_map (λ i. has_row (same_id i) d.notifications ≡ true) aggregate es
              (subst (All (λ i. has_row (same_id i) d.notifications ≡ true)) (sym named) (
                All-map _ notification_id queued_rows (
                  All-sort_by _ scheduled_before _ (
                    All-map _ queue_row _ (
                      All-rows_where _ (to_queue ids) d.notifications
                        (All-has_key notification_id d.notifications))))))

module _ (env : Env) (request_id : String) where
  queue_by_ids-IsConsistent :
      (ids : List ℕ) (ns : List NotificationRecord) (s t : Store)
      → IsConsistent s.db
      → (mark_queued_by_ids env ids >>= λ ns. create_events env request_id ns >> pure ns) s
        ≡ (ok ns, t)
      → IsConsistent t.db
  unfolding mark_queued_by_ids create_events
  queue_by_ids-IsConsistent [] ns s t c h = subst IsConsistent (ap (λ r. r.1.db) h) c
  queue_by_ids-IsConsistent (i ∷ is) ns s t c h =
      let announcing =
        λ (ns : List NotificationRecord). create_events env request_id ns >> pure ns in
      let (ms, s1, marked, h1) = >>=-ok (mark_queued_by_ids env (i ∷ is)) announcing s h in
      let (u, s2, stored, h2) = >>=-ok (create_events env request_id ms) (λ _. pure ms) s1 h1 in
      let (es, grown, named) = create_events-Announces env request_id ms s1 s2 stored in
      let (rows, table) = answer_of (
        statement-ok
          (λ (u : Store).
            (ok (queued_rows env (i ∷ is) u.db), record u { db = queued_table env (i ∷ is) u.db }))
          s marked) in
      subst IsConsistent (ap (λ u. with_events es u.db) table ∙ sym grown ∙ ap (λ r. r.1.db) h2)
        (queue-IsConsistent env (i ∷ is) s.db es (named ∙ ap (map notification_id) (sym rows)) c)

  lock_due-db :
      (limit : ℕ) (due : List NotificationRecord) (s t : Store)
      → lock_due_scheduled_batch env limit s ≡ (ok due, t)
      → s.db ≡ t.db
  unfolding lock_due_scheduled_batch
  lock_due-db limit due s t h = ground arith

  queue_due-Keeps : Keeps IsConsistent (queue_due env request_id)
  unfolding queue_due
  queue_due-Keeps s c = leave-Keeps_ok IsConsistent s.db _ c (λ ns t h.
      let queueing = λ (due : List NotificationRecord).
        mark_queued_by_ids env (map notification_id due) >>= λ ns.
        create_events env request_id ns >> pure ns in
      let (due, s1, locked, h1) =
        >>=-ok (lock_due_scheduled_batch env env.settings.scheduler_batch_size) queueing
          (record s { tx = in_tx }) h in
      queue_by_ids-IsConsistent (map notification_id due) ns s1 t
        (subst IsConsistent
          (lock_due-db env.settings.scheduler_batch_size due (record s { tx = in_tx }) s1 locked) c)
        h1)

  -- If the outbox is consistent before a tick of the scheduler, it is so after it, whether the
  -- tick returns or raises: ids are unique, every created or queued notification has one event,
  -- every scheduled or cancelled one none, and every event is about a notification.
  pub run_one_tick-IsConsistent :
      (s : Store) → IsConsistent s.db → IsConsistent (run_one_tick env request_id s).1.db
  unfolding run_one_tick report count_scheduled_backlog count_scheduled_due
  run_one_tick-IsConsistent =
      let to_report = λ (ns : List NotificationRecord) (backlog : ℕ).
        count_scheduled_due env >>= report env request_id ns backlog in
      let counting = λ (ns : List NotificationRecord). count_scheduled_backlog >>= to_report ns in
      >>=-Keeps IsConsistent (queue_due env request_id) counting queue_due-Keeps λ ns.
        >>=-Keeps IsConsistent count_scheduled_backlog (to_report ns)
          (statement-Keeps IsConsistent _ (λ s c. c))
          λ backlog.
            >>=-Keeps IsConsistent (count_scheduled_due env) (report env request_id ns backlog)
              (statement-Keeps IsConsistent _ (λ s c. c)) λ due s c. c
