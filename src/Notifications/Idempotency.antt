-- ===== src/Notifications/Idempotency.antt =====
-- Repeated requests (services/notifications.py, `create_notification`).
use substy.Base.{
  ℕ, ◌+◌, ◌≡◌, refl, sym, ap, ◌∙◌, Bool, true, false, Option, none, some, List, [], ◌∷◌, ◌++◌,
  String, Json, Datetime, find_row, has_row, arith, eq_refl, Outcome, ok, err, no_tx, lift, truthy,
  ◌>>=◌, >>=-ok,
}
use substy.Notifications.Model.{NotificationRecord, OutboxEventRecord, Store, Env}
use substy.Notifications.Repository.{same_key, key_taken, create, get_by_idempotency_key}
use substy.Notifications.Outbox.{create_event}
use substy.Notifications.Service.{
  insert_with_event, on_insert, create_new, create_notification, find_existing, if_absent,
  validate_payload, normalize_scheduled_at, new_row, created_event, request_headers,
}

-- What the lookup by key finds.
abbrev pub Found : ℕ → String → NotificationRecord → Store → Type 0
Found user_id key n s = find_row (same_key user_id key) s.db.notifications ≡ some n

find_row-append_new :
    (p : NotificationRecord → Bool) (ns : List NotificationRecord) (n : NotificationRecord)
    → has_row p ns ≡ false
    → p n ≡ true
    → find_row p (ns ++ n ∷ []) ≡ some n
find_row-append_new p [] n h hit = ground arith
find_row-append_new p (m ∷ ns) n h hit = ground (arith, find_row-append_new p ns n)

insert_with_event-ok :
    (env : Env) (n m : NotificationRecord) (e : OutboxEventRecord) (s t : Store)
    → insert_with_event env n e s ≡ (ok m, t)
    → (m ≡ n)
      × (t.db.notifications ≡ s.db.notifications ++ n ∷ [])
      × (key_taken n.created_by n.idempotency_key s.db.notifications ≡ false)
      × (t.tx ≡ no_tx)
unfolding insert_with_event create create_event
insert_with_event-ok env n m e s t h = ground arith

insert_with_event-tx :
    (env : Env) (n : NotificationRecord) (e : OutboxEventRecord) (s : Store)
    → (insert_with_event env n e s).1.tx ≡ no_tx
unfolding insert_with_event create create_event
insert_with_event-tx env n e s = ground arith

find_existing-ok :
    (user_id : ℕ) (key : String) (found : Option NotificationRecord) (s t : Store)
    → truthy key ≡ true
    → find_existing user_id (some key) s ≡ (ok found, t)
    → (find_row (same_key user_id key) s.db.notifications ≡ found) × (s ≡ t)
unfolding find_existing get_by_idempotency_key
find_existing-ok user_id key found s t k h = ground arith

module _ (env : Env) (user_id : ℕ) (key : String) (given : truthy key ≡ true) where
  on_insert-Found :
      (e : OutboxEventRecord) (m n : NotificationRecord) (b : Bool) (s t : Store)
      → s.tx ≡ no_tx
      → m.created_by ≡ user_id
      → m.idempotency_key ≡ some key
      → on_insert env user_id (some key) (insert_with_event env m e s) ≡ (ok (n, b), t)
      → Found user_id key n t × (t.tx ≡ no_tx)
  unfolding on_insert find_existing get_by_idempotency_key
  on_insert-Found e m n b s t idle by keyed h = by_result (insert_with_event env m e s) refl h
    where
      by_result :
          (r : Outcome NotificationRecord × Store)
          → insert_with_event env m e s ≡ r
          → on_insert env user_id (some key) r ≡ (ok (n, b), t)
          → Found user_id key n t × (t.tx ≡ no_tx)
      by_result (ok m', u) e'' k =
          let (same, table, free, left) = insert_with_event-ok env m m' e s u e'' in
          let found : Found user_id key m u = rw table (
            find_row-append_new (same_key user_id key) s.db.notifications m (cc (free, by, keyed))
              (ground (arith, eq_refl key, by, keyed))) in
          ground (arith, same, found, left)
      by_result (err x, u) e'' k =
          let left = insert_with_event-tx env m e s in ground (arith, left, e'')

  create_new-Found :
      (topic_id : ℕ) (payload : Json) (at : Option ℕ) (request_id : String) (n : NotificationRecord)
      (b : Bool) (s t : Store)
      → s.tx ≡ no_tx
      → create_new env user_id topic_id payload at (some key) request_id s ≡ (ok (n, b), t)
      → Found user_id key n t × (t.tx ≡ no_tx)
  unfolding create_new
  create_new-Found topic_id payload at request_id n b s t idle h =
      let m = new_row env user_id topic_id payload at (some key) (env.uuid s.world.draws) in
      let e =
        created_event env (env.uuid (s.world.draws + 1)) (request_headers env request_id user_id)
          m in
      on_insert-Found e m n b
        (record s { world = record s.world { draws = s.world.draws + 1 + 1 } }) t idle refl refl h

  if_absent-Found :
      (topic_id : ℕ) (payload : Json) (at : Option ℕ) (request_id : String)
      (found : Option NotificationRecord) (n : NotificationRecord) (b : Bool) (s t : Store)
      → s.tx ≡ no_tx
      → find_row (same_key user_id key) s.db.notifications ≡ found
      → if_absent env user_id topic_id payload at (some key) request_id found s ≡ (ok (n, b), t)
      → Found user_id key n t × (t.tx ≡ no_tx)
  unfolding if_absent
  if_absent-Found topic_id payload at request_id (some m) n b s t idle e h = ground arith
  if_absent-Found topic_id payload at request_id none n b s t idle e h =
      create_new-Found topic_id payload at request_id n b (record s { db = env.others s.db }) t idle
        h

create_notification-known :
    (env : Env) (user_id topic_id : ℕ) (payload : Json) (at : Option Datetime) (at' : Option ℕ)
    (key request_id : String) (n : NotificationRecord) (t : Store)
    → truthy key ≡ true
    → validate_payload env.settings payload ≡ ok tt
    → normalize_scheduled_at at ≡ ok at'
    → t.tx ≡ no_tx
    → Found user_id key n t
    → create_notification env user_id topic_id payload at (some key) request_id t
      ≡ (ok (n, false), t)
unfolding create_notification find_existing get_by_idempotency_key if_absent
create_notification-known env user_id topic_id payload at at' key request_id n t given valid normal
      idle found =
    ground arith

lift-ok :
    {A : Type 0} (r : Outcome A) (s t : Store) {a : A} → lift r s ≡ (ok a, t) → (r ≡ ok a) × (s ≡ t)
lift-ok r s t h = (ap (λ x. x.0) h, ap (λ x. x.1) h)

-- Repeating a request is harmless: after a call in an idle session that returned with a key that
-- is not empty, a call from the store that it left, by the same user with the same arguments, at any
-- time and with whatever answers of the environment, returns the same notification and False, and changes
-- nothing, if the settings are the same.
pub create_notification_twice :
    (env later : Env) (user_id topic_id : ℕ) (payload : Json) (at : Option Datetime)
    (key request_id request_id' : String) (n : NotificationRecord) (b : Bool) (s t : Store)
    → truthy key ≡ true
    → later.settings ≡ env.settings
    → s.tx ≡ no_tx
    → create_notification env user_id topic_id payload at (some key) request_id s ≡ (ok (n, b), t)
    → create_notification later user_id topic_id payload at (some key) request_id' t
      ≡ (ok (n, false), t)
unfolding create_notification
create_notification_twice env later user_id topic_id payload at key request_id request_id' n b s t
      given same idle h =
    let absent =
      λ (at' : Option ℕ). if_absent env user_id topic_id payload at' (some key) request_id in
    let looked_up = λ (at' : Option ℕ). find_existing user_id (some key) >>= absent at' in
    let normalized = λ (u : Unit {0}). lift (normalize_scheduled_at at) >>= looked_up in
    let (u, s1, valid, h1) = >>=-ok (lift (validate_payload env.settings payload)) normalized s h in
    let (at', s2, normal, h2) = >>=-ok (lift (normalize_scheduled_at at)) looked_up s1 h1 in
    let (found, s3, asked, h3) = >>=-ok (find_existing user_id (some key)) (absent at') s2 h2 in
    let (is_found, kept) = find_existing-ok user_id key found s2 s3 given asked in
    let start : s ≡ s3 = (lift-ok _ s s1 valid).1 ∙ (lift-ok _ s1 s2 normal).1 ∙ kept in
    let answer =
      if_absent-Found env user_id key given topic_id payload at' request_id found n b s3 t
        (sym (ap (λ x. x.tx) start) ∙ idle)
        (sym (ap (λ x. find_row (same_key user_id key) x.db.notifications) kept) ∙ is_found) h3 in
    create_notification-known later user_id topic_id payload at at' key request_id' n t given
      (ap (λ x. validate_payload x payload) same ∙ (lift-ok _ s s1 valid).0)
      (lift-ok _ s1 s2 normal).0 answer.1 answer.0
