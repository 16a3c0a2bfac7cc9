-- ===== src/Notifications/Consistency/Create.antt =====
-- The outbox invariant over creating and cancelling (services/notifications.py).
use mathlib.Core.Path.{subst}
use substy.Base.{
  ℕ, ◌+◌, ◌≡◌, inl, inr, refl, sym, ◌∙◌, Bool, true, false, ◌||◌, Option, none, some, List, [], ◌∷◌,
  ◌++◌, String, Json, Datetime, if◌then◌else◌, has_row, find_row, arith, Bool-cases, Outcome, ok,
  err, no_tx, lift, ◌>>=◌, Keeps, >>=-Keeps, statement-Keeps,
}
use substy.Notifications.Model.{
  NotificationRecord, Status, created, scheduled, queued, cancelled, OutboxEventRecord, Db, Store,
  Env,
}
use substy.Notifications.Repository.{
  same_id, is_scheduled, key_taken, create, to_cancel, get_by_id, cancel_if_scheduled, cancel_rows,
  get_by_idempotency_key,
}
use substy.Notifications.Outbox.{insert_event, create_event, same_event}
use substy.Notifications.Service.{
  is_created, insert_with_event, on_insert, create_new, create_notification, cancel_notification,
  cancel_scheduled, cancel_answer, cancel_found, get_notification, created_event, find_existing,
  validate_payload, normalize_scheduled_at, is_immediate, new_row, request_headers, meanwhile,
  if_absent,
}
use substy.Notifications.Consistency.{
  IsConsistent, expected, insert-IsConsistent, insert_both-IsConsistent, cancel-IsConsistent,
}

abbrev with_notification : NotificationRecord → Db → Db
with_notification n d = record d { notifications = d.notifications ++ n ∷ [] }

-- The tables after the transaction of `create_notification`.
abbrev after_insert : NotificationRecord → OutboxEventRecord → Db → Db
after_insert n e d =
    if has_row (same_id n.id) d.notifications
      || key_taken n.created_by n.idempotency_key d.notifications
    then d
    else if is_created n.status
    then (if has_row (same_event e.id) d.outbox_events
        then d
        else insert_event e (with_notification n d))
    else with_notification n d

insert_with_event-db :
    (env : Env) (n : NotificationRecord) (e : OutboxEventRecord) (s : Store)
    → (insert_with_event env n e s).1.db ≡ after_insert n e s.db
unfolding insert_with_event create create_event
insert_with_event-db env n e s = ground arith

insert_with_event-tx :
    (env : Env) (n : NotificationRecord) (e : OutboxEventRecord) (s : Store)
    → (insert_with_event env n e s).1.tx ≡ no_tx
unfolding insert_with_event create create_event
insert_with_event-tx env n e s = ground arith

created_expected : (st : Status) → is_created st ≡ true → expected st ≡ 1
created_expected created h = refl
created_expected scheduled h = cc
created_expected queued h = cc
created_expected cancelled h = cc

after_insert-IsConsistent :
    (n : NotificationRecord) (e : OutboxEventRecord) (d : Db)
    → IsConsistent d
    → e.aggregate_id ≡ n.id
    → ((is_created n.status ≡ false) → expected n.status ≡ 0)
    → IsConsistent (after_insert n e d)
after_insert-IsConsistent n e d c about_n silent =
    elim (Bool-cases (
      has_row (same_id n.id) d.notifications
      || key_taken n.created_by n.idempotency_key d.notifications)) [
        | inl taken ↦ rw taken c
        | inr free ↦ rw free (elim (Bool-cases (is_created n.status)) [
          | inr later ↦ rw later (insert-IsConsistent d n c (ground arith) (silent later))
          | inl now ↦ rw now (elim (Bool-cases (has_row (same_event e.id) d.outbox_events)) [
            | inl clash ↦ rw clash c
            | inr fresh ↦ rw fresh (
                insert_both-IsConsistent d n c (ground arith) e about_n
                  (created_expected n.status now))
          ])
        ])
      ]

on_insert-db :
    (env : Env) (user_id : ℕ) (key : Option String) (r : Outcome NotificationRecord) (s : Store)
    → (on_insert env user_id key (r, s)).1.db ≡ s.db
unfolding on_insert get_by_idempotency_key
on_insert-db env user_id key (ok n) s = refl
on_insert-db env user_id key (err e) s = ground arith

module _ (env : Env)
    (others_consistent : (d : Db) → IsConsistent d → IsConsistent (env.others d)) where
  create_new-IsConsistent :
      (user_id topic_id : ℕ) (payload : Json) (at : Option ℕ) (key : Option String)
      (request_id : String) (s : Store)
      → IsConsistent s.db
      → IsConsistent (create_new env user_id topic_id payload at key request_id s).1.db
  unfolding create_new
  create_new-IsConsistent user_id topic_id payload at key request_id s c =
      let n = new_row env user_id topic_id payload at key (env.uuid s.world.draws) in
      let e =
        created_event env (env.uuid (s.world.draws + 1)) (request_headers env request_id user_id)
          n in
      let drawn : Store = record s { world = record s.world { draws = s.world.draws + 1 + 1 } } in
      let inserted = insert_with_event env n e drawn in
      subst IsConsistent
        (sym
          (on_insert-db env user_id key inserted.0 inserted.1 ∙ insert_with_event-db env n e drawn))
        (after_insert-IsConsistent n e s.db c refl (λ h. silent (is_immediate env at) h))
    where
      silent :
          (now : Bool)
          → is_created (if now then created else scheduled) ≡ false
          → expected (if now then created else scheduled) ≡ 0
      silent true h = cc
      silent false h = refl

  find_existing-Keeps :
      (user_id : ℕ) (key : Option String) → Keeps IsConsistent (find_existing user_id key)
  unfolding find_existing get_by_idempotency_key
  find_existing-Keeps user_id key s c = subst IsConsistent (sym same) c
    where
      same : (find_existing user_id key s).1.db ≡ s.db
      same = ground arith

  if_absent-Keeps :
      (user_id topic_id : ℕ) (payload : Json) (at : Option ℕ) (key : Option String)
      (request_id : String) (existing : Option NotificationRecord)
      → Keeps IsConsistent (if_absent env user_id topic_id payload at key request_id existing)
  unfolding if_absent
  if_absent-Keeps user_id topic_id payload at key request_id (some n) s c = c
  if_absent-Keeps user_id topic_id payload at key request_id none s c =
      create_new-IsConsistent user_id topic_id payload at key request_id
        (record s { db = env.others s.db }) (others_consistent s.db c)

  -- Creating a notification keeps the outbox consistent, with whatever arguments and whether the
  -- call returns or raises, if what other sessions commit in between does.
  pub create_notification-IsConsistent :
      (user_id topic_id : ℕ) (payload : Json) (at : Option Datetime) (key : Option String)
      (request_id : String) (s : Store)
      → IsConsistent s.db
      → IsConsistent (create_notification env user_id topic_id payload at key request_id s).1.db
  unfolding create_notification
  create_notification-IsConsistent user_id topic_id payload at key request_id =
      let absent = λ (at' : Option ℕ). if_absent env user_id topic_id payload at' key request_id in
      let looked_up = λ (at' : Option ℕ). find_existing user_id key >>= absent at' in
      >>=-Keeps IsConsistent (lift (validate_payload env.settings payload))
        (λ _. lift (normalize_scheduled_at at) >>= looked_up) (λ s c. c)
        λ _.
          >>=-Keeps IsConsistent (lift (normalize_scheduled_at at)) looked_up (λ s c. c)
            λ at'.
              >>=-Keeps IsConsistent (find_existing user_id key) (absent at')
                (find_existing-Keeps user_id key)
                (if_absent-Keeps user_id topic_id payload at' key request_id)

  get_notification-Keeps :
      (i user_id : ℕ) (roles : List String)
      → Keeps IsConsistent (get_notification env i user_id roles)
  unfolding get_notification get_by_id
  get_notification-Keeps i user_id roles s c = subst IsConsistent (sym same) c
    where
      same : (get_notification env i user_id roles s).1.db ≡ s.db
      same = ground arith

  cancel_rows-Keeps :
      (i : ℕ) (found : Option NotificationRecord) → Keeps IsConsistent (cancel_rows env i found)
  unfolding cancel_rows
  cancel_rows-Keeps i none s c = c
  cancel_rows-Keeps i (some n) s c =
      cancel-IsConsistent env (to_cancel i) s.db c (λ m hit. ground arith)

  cancel_if_scheduled-Keeps : (i : ℕ) → Keeps IsConsistent (cancel_if_scheduled env i)
  unfolding cancel_if_scheduled
  cancel_if_scheduled-Keeps i =
      statement-Keeps IsConsistent
        (λ s. cancel_rows env i (find_row (to_cancel i) s.db.notifications) s)
        (λ s c. cancel_rows-Keeps i (find_row (to_cancel i) s.db.notifications) s c)

  cancel_scheduled-Keeps : (i : ℕ) → Keeps IsConsistent (cancel_scheduled env i)
  unfolding cancel_scheduled
  cancel_scheduled-Keeps i =
      >>=-Keeps IsConsistent (meanwhile env) (λ _. cancel_if_scheduled env i >>= cancel_answer env)
        (λ s c. others_consistent s.db c)
        λ _.
          >>=-Keeps IsConsistent (cancel_if_scheduled env i) (cancel_answer env)
            (cancel_if_scheduled-Keeps i) answer
    where
      answer : (found : Option NotificationRecord) → Keeps IsConsistent (cancel_answer env found)
      answer none s c = c
      answer (some n) s c = c

  -- Cancelling a notification keeps the outbox consistent, whether the call returns or raises, if
  -- what other sessions commit in between does.
  pub cancel_notification-IsConsistent :
      (i user_id : ℕ) (roles : List String) (s : Store)
      → IsConsistent s.db
      → IsConsistent (cancel_notification env i user_id roles s).1.db
  unfolding cancel_notification
  cancel_notification-IsConsistent i user_id roles =
      >>=-Keeps IsConsistent (get_notification env i user_id roles) (cancel_found env i)
        (get_notification-Keeps i user_id roles) by_status
    where
      by_status : (n : NotificationRecord) → Keeps IsConsistent (cancel_found env i n)
      by_status n s c = elim (Bool-cases (is_scheduled n.status)) [
        | inl open_row ↦ rw (open_row, cancel_found) (cancel_scheduled-Keeps i s c)
        | inr other ↦ rw (other, cancel_found) c
      ]
