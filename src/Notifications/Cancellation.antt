-- ===== src/Notifications/Cancellation.antt =====
-- Cancellations that return (services/notifications.py, `cancel_notification`).
use substy.Base.{
  ℕ, ◌≡◌, ◌⊎◌, inl, inr, refl, true, false, not, ◌&&◌, some, List, [], ◌∷◌, String, arith, ◌==◌,
  Bool-cases, Option-cases, find_row, has_row, update_where, member, ok,
}
use substy.Notifications.Model.{
  NotificationRecord, Status, created, scheduled, queued, cancelled, Store, Env,
}
use substy.Notifications.Repository.{
  same_id, is_scheduled, to_cancel, with_status, get_by_id, cancel_if_scheduled,
}
use substy.Notifications.Service.{cancel_notification}

-- The caller may act on the notification: it is the caller's own, or the caller is an admin.
abbrev pub MayCancel : ℕ → List String → NotificationRecord → Type 0
MayCancel user_id roles n = (n.created_by ≡ user_id) ⊎ (member "admin" roles ≡ true)

may_cancel :
    (user_id : ℕ) (roles : List String) (n : NotificationRecord)
    → (not (n.created_by == user_id) && not (member "admin" roles)) ≡ false
    → MayCancel user_id roles n
may_cancel user_id roles n h = elim (Bool-cases (member "admin" roles)) [
  | inl admin ↦ inr admin
  | inr plain ↦ inl (ground arith)
]

status_of : (st : Status) → is_scheduled st ≡ true → st ≡ scheduled
status_of scheduled h = refl
status_of created h = cc
status_of queued h = cc
status_of cancelled h = cc

cancelled_id :
    (i : ℕ) (ns : List NotificationRecord) (r : NotificationRecord)
    → find_row (to_cancel i) ns ≡ some r
    → r.id ≡ i
cancelled_id i [] r e = cc
cancelled_id i (n ∷ ns) r e = ground (arith, cancelled_id i ns r)

none_scheduled :
    (env : Env) (i : ℕ) (ns : List NotificationRecord)
    → has_row (to_cancel i) (update_where (to_cancel i) (with_status env cancelled) ns) ≡ false
none_scheduled env i [] = refl
none_scheduled env i (n ∷ ns) = elim (Bool-cases (to_cancel i n)) [
  | inl hit ↦ ground (arith, none_scheduled env i ns)
  | inr miss ↦ ground (arith, none_scheduled env i ns)
]

module _ (env : Env) (i user_id : ℕ) (roles : List String) (m : NotificationRecord)
    (s t : Store) where
  -- If a cancellation returns, the notification was there, scheduled, and the caller's own or the
  -- caller an admin; the answer has its id and is cancelled; the tables are those that the other
  -- sessions left, but for that id's scheduled rows, of which none is left, and the outbox is as they
  -- left it.
  pub cancel_notification_lem :
      cancel_notification env i user_id roles s ≡ (ok m, t)
      → ((n : NotificationRecord) × (find_row (same_id i) s.db.notifications ≡ some n)
          × (n.status ≡ scheduled)
          × MayCancel user_id roles n)
        × (m.id ≡ i)
        × (m.status ≡ cancelled)
        × (t.db.notifications
            ≡ update_where
                (to_cancel i)
                (with_status env cancelled)
                (env.others s.db).notifications)
        × (has_row (to_cancel i) t.db.notifications ≡ false)
        × (t.db.outbox_events ≡ (env.others s.db).outbox_events)
  unfolding cancel_notification get_by_id cancel_if_scheduled
  cancel_notification_lem h = elim (Option-cases (find_row (same_id i) s.db.notifications)) [
    | inl missing ↦ ground arith
    | inr (n, found) ↦
        elim (Option-cases (find_row (to_cancel i) (env.others s.db).notifications)) [
          | inl taken ↦ ground arith
          | inr (r, open_row) ↦
              let table : t.db.notifications
                  ≡ update_where (to_cancel i) (with_status env cancelled)
                      (env.others s.db).notifications =
                ground arith in
              (
                (
                  n,
                  found,
                  (status_of n.status (ground arith)),
                  may_cancel user_id roles n (ground arith),
                ),
                ground (arith, cancelled_id i (env.others s.db).notifications r open_row),
                ground arith,
                table,
                rw table (none_scheduled env i (env.others s.db).notifications),
                ground arith,
              )
        ]
  ]
