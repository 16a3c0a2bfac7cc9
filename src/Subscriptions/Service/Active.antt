-- ===== src/Subscriptions/Service/Active.antt =====
-- Who is subscribed (services/subscriptions.py).
use substy.Base.{
  ℕ, ◌≡◌, inl, inr, Bool, true, false, ◌&&◌, Option, some, List, [], ◌∷◌, All, All-mono, All-both,
  All-map, All-take, All-sort_by, All-rows_where, All-rows_where_self, arith, Bool-cases,
  Option-cases, ◌==◌, find_row, update_where, rows_where, sort_by, take, map, ok, UniqueKeys,
}
use substy.Subscriptions.Model.{SubscriptionRow, SubscriberRecord, Db, Store, Env}
use substy.Subscriptions.Repository.{
  owned, set_active, update_active, get_by_id_for_user, list_active_subscribers, active_in,
  after_cursor, subscriber_before, subscriber_of,
}
use substy.Subscriptions.Service.{unsubscribe}

-- Subscription `i` of the user is not active.
abbrev pub IsOff : ℕ → ℕ → SubscriptionRow → Type 0
IsOff i user_id r = (owned i user_id r && r.is_active) ≡ false

switched-IsOff :
    (env : Env) (i user_id : ℕ) (rows : List SubscriptionRow)
    → All (IsOff i user_id) (update_where (owned i user_id) (set_active env false) rows)
switched-IsOff env i user_id [] = tt
switched-IsOff env i user_id (r ∷ rows) = (ground arith, switched-IsOff env i user_id rows)

found-IsOff :
    (i user_id : ℕ) (rows : List SubscriptionRow) (r : SubscriptionRow)
    → UniqueKeys (λ (x : SubscriptionRow). x.id) rows
    → find_row (owned i user_id) rows ≡ some r
    → r.is_active ≡ false
    → All (IsOff i user_id) rows
found-IsOff i user_id [] r u e off = tt
found-IsOff i user_id (x ∷ rows) r u e off = elim (Bool-cases (owned i user_id x)) [
  | inl hit ↦ (ground arith, All-mono _ (IsOff i user_id) rows (λ y ne. ground arith) u.0)
  | inr miss ↦ (ground arith, found-IsOff i user_id rows r u.1 (ground arith) off)
]

unsubscribe-IsOff :
    (env : Env) (i user_id : ℕ) (s t : Store)
    → UniqueKeys (λ (x : SubscriptionRow). x.id) s.db.subscriptions
    → unsubscribe env user_id i s ≡ (ok tt, t)
    → All (IsOff i user_id) t.db.subscriptions
unfolding unsubscribe update_active get_by_id_for_user
unsubscribe-IsOff env i user_id s t u h =
    elim (Option-cases (find_row (owned i user_id) s.db.subscriptions)) [
      | inl missing ↦ ground arith
      | inr (r, there) ↦ elim (Bool-cases r.is_active) [
        | inl active ↦
            let after : t.db.subscriptions
                ≡ update_where (owned i user_id) (set_active env false)
                    (env.others s.db).subscriptions =
              ground arith in
            rw after (switched-IsOff env i user_id (env.others s.db).subscriptions)
        | inr inactive ↦
            let after : t.db.subscriptions ≡ s.db.subscriptions = ground arith in
            rw after (found-IsOff i user_id s.db.subscriptions r u there inactive)
      ]
    ]

-- The subscriber is this subscription of the user.
abbrev pub is_subscriber : ℕ → ℕ → SubscriberRecord → Bool
is_subscriber i user_id r = r.subscription_id == i && r.user_id == user_id

listed :
    (d : Db) (i user_id topic_id limit : ℕ) (cursor : Option (ℕ × ℕ))
    → All (IsOff i user_id) d.subscriptions
    → All
        (λ r. is_subscriber i user_id r ≡ false)
        (map (subscriber_of d) (
          take limit (
            sort_by subscriber_before
              (rows_where (λ r. active_in topic_id r && after_cursor cursor r) d.subscriptions))))
listed d i user_id topic_id limit cursor off =
    let p = λ (r : SubscriptionRow). active_in topic_id r && after_cursor cursor r in
    All-map (λ r. is_subscriber i user_id r ≡ false) (subscriber_of d) _
      (All-take _ limit _ (
        All-sort_by _ subscriber_before (rows_where p d.subscriptions) (
          All-both (IsOff i user_id) (λ r. p r ≡ true) (λ r. owned i user_id r ≡ false)
            (rows_where p d.subscriptions) (λ r h k. ground arith)
            (All-rows_where (IsOff i user_id) p d.subscriptions off)
            (All-rows_where_self p d.subscriptions))))

-- With unique ids, once `unsubscribe` has returned, the rows of `list_active_subscribers` that
-- follow, for any topic, cursor and limit, do not hold the subscription.
pub unsubscribe_lem :
    (env : Env) (user_id i topic_id limit : ℕ) (cursor : Option (ℕ × ℕ)) (s t t' : Store)
    (rows : List SubscriberRecord)
    → UniqueKeys (λ (x : SubscriptionRow). x.id) s.db.subscriptions
    → unsubscribe env user_id i s ≡ (ok tt, t)
    → list_active_subscribers topic_id limit cursor t ≡ (ok rows, t')
    → All (λ r. is_subscriber i user_id r ≡ false) rows
unfolding list_active_subscribers
unsubscribe_lem env user_id i topic_id limit cursor s t t' rows u h k =
    let page : rows
        ≡ map (subscriber_of t.db) (
            take limit (
              sort_by subscriber_before (
                rows_where (λ r. active_in topic_id r && after_cursor cursor r)
                  t.db.subscriptions))) =
      ground arith in
    rw page (listed t.db i user_id topic_id limit cursor (unsubscribe-IsOff env i user_id s t u h))
