-- ===== src/Notifications/Consistency.antt =====
-- The transactional outbox: the invariant that ties the two tables together, and the changes of the
-- tables that keep it.
pub mod Create
pub mod Tick
use mathlib.Core.Path.{subst}
use substy.Base.{
  ℕ, ◌+◌, ◌≡◌, ◌≢◌, refl, sym, ap, ◌∙◌, Bool, true, false, ◌||◌, Option, none, some, List, [], ◌∷◌,
  ◌++◌, All, All-append, All-mono, All-both, ◌==◌, if◌then◌else◌, has_row, count_where,
  update_where, rows_where, arith, UniqueKeys, UniqueKeys-append, UniqueKeys-update, All-has_row,
  All-update_where, count_where-append, count_where-update, has_row-append, has_row-update,
}
use substy.Notifications.Model.{
  NotificationRecord, Status, created, scheduled, queued, cancelled, OutboxEventRecord, Db, Env,
}
use substy.Notifications.Repository.{same_id, notification_id, is_scheduled, with_status}
use substy.Notifications.Outbox.{insert_event}
use substy.Notifications.Service.{is_created}

-- The event is about this notification.
abbrev pub about : ℕ → OutboxEventRecord → Bool
about i e = e.aggregate_id == i

-- How many events a notification of this status has.
abbrev pub expected : Status → ℕ
expected created = 1
expected queued = 1
expected scheduled = 0
expected cancelled = 0

abbrev pub HasEvents : List OutboxEventRecord → NotificationRecord → Type 0
HasEvents es n = count_where (about n.id) es ≡ expected n.status

abbrev pub IsKnown : List NotificationRecord → OutboxEventRecord → Type 0
IsKnown ns e = has_row (same_id e.aggregate_id) ns ≡ true

-- Notification ids are unique, a created or queued notification has one event and a scheduled or
-- cancelled one none, and every event is about a notification.
pub record IsConsistent (d : Db) : Type 0 where
  pub unique : UniqueKeys notification_id d.notifications
  pub announced : All (HasEvents d.outbox_events) d.notifications
  pub known : All (IsKnown d.notifications) d.outbox_events

count-unknown :
    (i : ℕ) (ns : List NotificationRecord) (es : List OutboxEventRecord)
    → has_row (same_id i) ns ≡ false
    → All (IsKnown ns) es
    → count_where (about i) es ≡ 0
count-unknown i ns [] h k = refl
count-unknown i ns (e ∷ es) h k = ground (arith, not_about, count-unknown i ns es h k.1)
  where
    not_about : e.aggregate_id ≢ i
    not_about same = cc (subst (λ j. has_row (same_id j) ns ≡ true) same k.0)

IsKnown-append :
    (ns : List NotificationRecord) (n : NotificationRecord) (es : List OutboxEventRecord)
    → All (IsKnown ns) es
    → All (IsKnown (ns ++ n ∷ [])) es
IsKnown-append ns n es h =
    All-mono (IsKnown ns) (IsKnown (ns ++ n ∷ [])) es
      (λ e k. rw (has_row-append (same_id e.aggregate_id) ns (n ∷ []), k)) h

module _ (d : Db) (n : NotificationRecord) (c : IsConsistent d)
    (new : has_row (same_id n.id) d.notifications ≡ false) where
  -- A scheduled notification is added.
  pub insert-IsConsistent :
      expected n.status ≡ 0 → IsConsistent (record d { notifications = d.notifications ++ n ∷ [] })
  insert-IsConsistent silent = record {
    unique =
        UniqueKeys-append notification_id d.notifications n c.unique
          (All-has_row notification_id n.id d.notifications new);
    announced =
        All-append (HasEvents d.outbox_events) d.notifications (n ∷ []) c.announced
          (cc (count-unknown n.id d.notifications d.outbox_events new c.known, silent), tt);
    known = IsKnown-append d.notifications n d.outbox_events c.known;
  }

  -- A created notification is added with its event.
  pub insert_both-IsConsistent :
      (e : OutboxEventRecord)
      → e.aggregate_id ≡ n.id
      → expected n.status ≡ 1
      → IsConsistent (insert_event e (record d { notifications = d.notifications ++ n ∷ [] }))
  insert_both-IsConsistent e about_n loud = record {
    unique =
        UniqueKeys-append notification_id d.notifications n c.unique
          (All-has_row notification_id n.id d.notifications new);
    announced =
        All-append (HasEvents (d.outbox_events ++ e ∷ [])) d.notifications (n ∷ [])
          (All-both (HasEvents d.outbox_events) (λ m. m.id ≢ n.id)
            (HasEvents (d.outbox_events ++ e ∷ [])) d.notifications
            (λ m h ne.
              rw (count_where-append (about m.id) d.outbox_events (e ∷ []))
                (ground (arith, about_n)))
            c.announced (All-has_row notification_id n.id d.notifications new))
          (own_event, tt);
    known =
        All-append (IsKnown (d.notifications ++ n ∷ [])) d.outbox_events (e ∷ [])
          (IsKnown-append d.notifications n d.outbox_events c.known)
          (
            rw (has_row-append (same_id e.aggregate_id) d.notifications (n ∷ []))
                (ground (arith, about_n)),
            tt,
          );
  }
    where
      own_event : HasEvents (d.outbox_events ++ e ∷ []) n
      own_event = rw (count_where-append (about n.id) d.outbox_events (e ∷ [])) (
          ground
            (arith, about_n, loud, count-unknown n.id d.notifications d.outbox_events new c.known))

-- Scheduled notifications are cancelled.
pub cancel-IsConsistent :
    (env : Env) (p : NotificationRecord → Bool) (d : Db)
    → IsConsistent d
    → ((n : NotificationRecord) → p n ≡ true → is_scheduled n.status ≡ true)
    → IsConsistent
        (record d { notifications = update_where p (with_status env cancelled) d.notifications })
cancel-IsConsistent env p d c only = record {
  unique =
      UniqueKeys-update notification_id p (with_status env cancelled) d.notifications (λ n. refl)
        c.unique;
  announced =
      All-update_where (HasEvents d.outbox_events) p (with_status env cancelled) d.notifications
        (λ n hit h. silent n.status (only n hit) h) c.announced;
  known =
      All-mono (IsKnown d.notifications) _ d.outbox_events
        (λ e k.
          has_row-update (same_id e.aggregate_id) p (with_status env cancelled) d.notifications
            (λ n. refl)
          ∙ k)
        c.known;
}
  where
    silent : {k : ℕ} (st : Status) → is_scheduled st ≡ true → k ≡ expected st → k ≡ 0
    silent scheduled h e = e
    silent created h e = cc
    silent queued h e = cc
    silent cancelled h e = cc

-- An event's row is changed, but not what it is about.
pub update_event-IsConsistent :
    (p : OutboxEventRecord → Bool) (f : OutboxEventRecord → OutboxEventRecord) (d : Db)
    → IsConsistent d
    → ((e : OutboxEventRecord) → (f e).aggregate_id ≡ e.aggregate_id)
    → IsConsistent (record d { outbox_events = update_where p f d.outbox_events })
update_event-IsConsistent p f d c keeps = record {
  unique = c.unique;
  announced =
      All-mono (HasEvents d.outbox_events) (HasEvents (update_where p f d.outbox_events))
        d.notifications
        (λ n h. count_where-update (about n.id) p f d.outbox_events (λ e. rw (keeps e)) ∙ h)
        c.announced;
  known =
      All-update_where (IsKnown d.notifications) p f d.outbox_events
        (λ e hit k. subst (λ i. has_row (same_id i) d.notifications ≡ true) (sym (keeps e)) k)
        c.known;
}
