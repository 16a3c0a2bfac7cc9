-- ===== src/Subscriptions/Service/Twice.antt =====
-- Subscribing again (services/subscriptions.py).
pub mod Rows
use substy.Base.{
  not, ℕ, ◌≡◌, ◌≢◌, refl, sym, inl, inr, Bool, true, false, ◌&&◌, Option, none, some, List, [], ◌∷◌,
  ◌++◌, All, arith, Bool-cases, Option-cases, ◌==◌, find_row, has_row, update_where, All-find_row,
  ok, no_tx, in_tx, ◌+◌, UniqueKeys, transaction, ◌>>=◌,
}
use substy.Subscriptions.Model.{SubscriptionRow, SubscriptionRecord, Db, Store, Env}
use substy.Subscriptions.Repository.{
  topic_id_is, owned, same_pair, same_id, set_active, update_active, get_by_id_for_user,
  get_by_user_topic, create, with_preferences, channels_allowed, upsert_preferences,
  insert_subscription, update_row, preferences_of, set_preferences,
}
use substy.Subscriptions.Service.{subscribe, subscribe_existing, get_topic_by_id, uuid4}
use substy.Subscriptions.Service.Twice.Rows.{
  UniqueIds, found_in, is_pair, switched_by_id, switched_by_pair, added, not_owned,
}

module _ (user_id topic_id : ℕ) where
  -- The subscription that the answer shows is the one found by user and topic; it is active, and
  -- the topic is there.
  abbrev pub IsSubscribed : Store → SubscriptionRecord → Type 0
  IsSubscribed t r =
      (t.tx ≡ no_tx)
      × ((x : SubscriptionRow) × (found_in user_id topic_id t.db.subscriptions ≡ some x)
          × (x.is_active ≡ true)
          × (r ≡ with_preferences t.db x))
      × (has_row (topic_id_is topic_id) t.db.topics ≡ true)

  subscribe_settled :
      (again : Env) (t : Store) (r : SubscriptionRecord)
      → ((d : Db) → again.others d ≡ d)
      → IsSubscribed t r
      → subscribe again user_id topic_id t ≡ (ok (r, false), t)
  unfolding subscribe get_topic_by_id get_by_user_topic subscribe_existing
  subscribe_settled again t r calm (idle, (x, found, active, e), there) =
      ground (arith, idle, found, active, e, there, calm t.db)

  abbrev new_row : Env → ℕ → SubscriptionRow
  new_row env i = record {
    id = i;
    user_id = user_id;
    topic_id = topic_id;
    is_active = true;
    created_at = env.db_now;
    updated_at = env.db_now;
  }

  -- What `create` did if it returned.
  create_returned :
      (env : Env) (i : ℕ) (s : Store) (r : SubscriptionRecord)
      → s.tx ≡ in_tx
      → (create env i user_id topic_id s).0 ≡ ok r
      → let t = (create env i user_id topic_id s).1 in
        (t.tx ≡ in_tx)
        × (t.db.topics ≡ s.db.topics)
        × (t.db.subscriptions ≡ s.db.subscriptions ++ new_row env i ∷ [])
        × (r ≡ with_preferences t.db (new_row env i))
  unfolding create insert_subscription upsert_preferences get_by_id_for_user channels_allowed
  create_returned env i s r in_block h =
      elim (Bool-cases (has_row (same_id i) s.db.subscriptions)) [
        | inl taken ↦ ground (arith, in_block, h)
        | inr new ↦
            let by_id =
              added (owned i user_id) s.db.subscriptions (new_row env i)
                (not_owned user_id i s.db.subscriptions new) (ground arith) in
            ground (arith, in_block, h, by_id)
      ]

  module _ (env : Env) (s t : Store) (r : SubscriptionRecord) (created : Bool) (idle : s.tx ≡ no_tx)
      (u : UniqueIds s.db.subscriptions) (calm : (d : Db) → env.others d ≡ d)
      (h : subscribe env user_id topic_id s ≡ (ok (r, created), t)) where
    topic_there : has_row (topic_id_is topic_id) s.db.topics ≡ true
    unfolding subscribe get_topic_by_id
    topic_there = ground (arith, idle, h)

    active_IsSubscribed :
        (x : SubscriptionRow)
        → found_in user_id topic_id s.db.subscriptions ≡ some x
        → x.is_active ≡ true
        → (t ≡ s) × (created ≡ false) × IsSubscribed t r
    unfolding subscribe get_topic_by_id get_by_user_topic subscribe_existing
    active_IsSubscribed x found active =
        let same : (t ≡ s) × (r ≡ with_preferences s.db x) × (created ≡ false) =
          ground (arith, idle, h, found, active, topic_there, calm s.db) in
        (same.0, same.2, rw same.0 (idle, (x, found, active, same.1), topic_there))

    switched_IsSubscribed :
        (x : SubscriptionRow)
        → found_in user_id topic_id s.db.subscriptions ≡ some x
        → x.is_active ≡ false
        → (created ≡ false) × IsSubscribed t r
    unfolding subscribe get_topic_by_id get_by_user_topic subscribe_existing update_active
        get_by_id_for_user update_row
    switched_IsSubscribed x found inactive =
        let by_id = switched_by_id user_id topic_id env s.db.subscriptions x u found in
        let same : (t.tx ≡ no_tx)
            × (t.db.topics ≡ s.db.topics)
            × (t.db.subscriptions
                ≡ update_where (owned x.id user_id) (set_active env true) s.db.subscriptions)
            × (r ≡ with_preferences t.db (set_active env true x))
            × (created ≡ false) =
          ground (arith, idle, h, found, inactive, topic_there, calm s.db, by_id) in
        (
          same.4,
          (
            same.0,
            (
              set_active env true x,
              rw same.2 (switched_by_pair user_id topic_id env s.db.subscriptions x found),
              refl,
              same.3,
            ),
            rw same.1 topic_there,
          ),
        )

    -- The store in which the block of the INSERT statements starts.
    abbrev block : Store
    block = record { db = s.db; tx = in_tx; world = record { draws = s.world.draws + 1 } }

    create_ends :
        found_in user_id topic_id s.db.subscriptions ≡ none
        → let (result, t0) = create env (env.uuid s.world.draws) user_id topic_id block in
          (result ≡ ok r) × (created ≡ true) × ((t0.tx ≡ in_tx) → (t.tx ≡ no_tx) × (t.db ≡ t0.db))
    unfolding subscribe get_topic_by_id get_by_user_topic subscribe_existing uuid4
    create_ends missing = ground (arith, idle, h, missing, topic_there, calm s.db)

    created_IsSubscribed :
        found_in user_id topic_id s.db.subscriptions ≡ none → (created ≡ true) × IsSubscribed t r
    created_IsSubscribed missing =
        let i = env.uuid s.world.draws in
        let ends = create_ends missing in
        let did = create_returned env i block r refl ends.0 in
        let left = ends.2 did.0 in
        (
          ends.1,
          (
            left.0,
            (
              new_row env i,
              rw (left.1, did.2)
                  (added (same_pair user_id topic_id) s.db.subscriptions (new_row env i) missing
                    (ground arith)),
              refl,
              rw left.1 did.3,
            ),
            rw (left.1, did.1) topic_there,
          ),
        )

    -- What the answer and the tables show, whichever way the call took.
    subscribe-IsSubscribed :
        (created ≡ not (has_row (same_pair user_id topic_id) s.db.subscriptions)) × IsSubscribed t r
    subscribe-IsSubscribed = elim (Option-cases (found_in user_id topic_id s.db.subscriptions)) [
      | inl missing ↦ let new = created_IsSubscribed missing in (rw (missing, new.0) refl, new.1)
      | inr (x, found) ↦ elim (Bool-cases x.is_active) [
        | inl active ↦
            let kept = active_IsSubscribed x found active in (rw (found, kept.1) refl, kept.2)
        | inr inactive ↦
            let switched = switched_IsSubscribed x found inactive in
            (rw (found, switched.0) refl, switched.1)
      ]
    ]

-- Subscribing is idempotent: after a `subscribe` in an idle session that returned, the subscription
-- that it answered with is the user's, for the topic and active, said to be created exactly if the
-- user had none for the topic; and to subscribe again from there, at any time, answers with the
-- same subscription, not created, and changes nothing. This holds where ids are unique and no other
-- session commits in between.
pub subscribe_twice :
    (env again : Env) (user_id topic_id : ℕ) (s t : Store) (r : SubscriptionRecord) (created : Bool)
    → s.tx ≡ no_tx
    → UniqueKeys (λ (x : SubscriptionRow). x.id) s.db.subscriptions
    → ((d : Db) → env.others d ≡ d)
    → ((d : Db) → again.others d ≡ d)
    → subscribe env user_id topic_id s ≡ (ok (r, created), t)
    → (r.user_id ≡ user_id)
      × (r.topic_id ≡ topic_id)
      × (r.is_active ≡ true)
      × (created ≡ not (has_row (same_pair user_id topic_id) s.db.subscriptions))
      × (subscribe again user_id topic_id t ≡ (ok (r, false), t))
subscribe_twice env again user_id topic_id s t r created idle u calm calm_again h =
    let is = subscribe-IsSubscribed user_id topic_id env s t r created idle u calm h in
    let (x, found, active, e) = is.1.1 in
    let pair = is_pair user_id topic_id t.db.subscriptions x found in
    (
      rw e pair.0,
      rw e pair.1,
      rw e active,
      is.0,
      subscribe_settled user_id topic_id again t r calm_again is.1,
    )
