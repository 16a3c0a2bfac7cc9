-- ===== src/Delivery/Fanout/Refines.antt =====
-- The steps of a fan-out and what each adds (services/fanout.py).
use mathlib.Core.Path.{subst}
use mathlib.Core.List.{append_assoc, append-nil, map-append}
use substy.Base.{
  ℕ, zero, suc, ◌≡◌, refl, inl, inr, Bool, true, false, Option, none, some, List, [], ◌∷◌, ◌++◌,
  map, String, member, if◌then◌else◌, truthy?, ok, in_tx, arith, Bool-cases, >>=-ok, ap, sym, pure,
  ◌>>=◌,
}
use substy.Channels.{normalize_channels}
use substy.Delivery.Model.{DeliveryAttemptRecord, Db, Store, Call, Env}
use substy.Delivery.Metrics.{Counters}
use substy.Delivery.Attempts.{insert_row, create_or_get}
use substy.Delivery.Effects.{uuid4, enqueue_job}
use substy.Delivery.Fanout.{
  NotificationCreatedEvent, SubscriberItem, FanoutService, SubscribersPage, fan_channel,
  fan_channels, fan_subscriber, fan_subscribers, fan_pages, settings_channels,
}
use substy.Delivery.Fanout.Wanted.{
  Wanted, pending_row, send_job, wanted_row, wanted_channels, wanted_subscriber, wanted, Pages,
  last_page, more_pages,
}

-- In a transaction, `create_or_get` returns only if it inserted: the row is new and pending.
create_or_get-ok :
    (env : Env) (id : ℕ) (w : Wanted) (s s' : Store) (a : DeliveryAttemptRecord) (created : Bool)
    → s.tx ≡ in_tx
    → create_or_get env id w.notification_id w.user_id w.channel w.payload w.quiet_hours_start
        w.quiet_hours_end w.timezone s
      ≡ (ok (a, created), s')
    → (created ≡ true)
      × (a ≡ pending_row env (id, w))
      × (s' ≡ record s { db = insert_row (pending_row env (id, w)) s.db })
unfolding create_or_get
create_or_get-ok env id w s s' a created block h = ground arith

module _ (svc : FanoutService) (event : NotificationCreatedEvent) where
  open svc use {env}

  -- From `s` to `t` these attempts were added, each with one job, and nothing else in the tables.
  pub record Grew (ws : List Wanted) (s t : Store) : Type 0 where
    pub new : List (ℕ × Wanted)
    pub as_wanted : map (λ n. n.1) new ≡ ws
    pub attempts : t.db.delivery_attempts ≡ s.db.delivery_attempts ++ map (pending_row env) new
    pub processed : t.db.processed_events ≡ s.db.processed_events
    pub block : t.tx ≡ in_tx
    pub jobs : t.world.jobs ≡ s.world.jobs ++ map send_job new

  Grew-nil : (s : Store) → s.tx ≡ in_tx → Grew [] s s
  Grew-nil s block = record {
    new = [];
    as_wanted = refl;
    attempts = simp append-nil;
    processed = refl;
    block = block;
    jobs = simp append-nil;
  }

  Grew-append :
      {xs ys : List Wanted} {s t u : Store} → Grew xs s t → Grew ys t u → Grew (xs ++ ys) s u
  Grew-append g h = record {
    new = g.new ++ h.new;
    as_wanted = simp (map-append, g.as_wanted, h.as_wanted);
    attempts = simp (h.attempts, g.attempts, map-append, append_assoc);
    processed = cc (g.processed, h.processed);
    block = h.block;
    jobs = simp (h.jobs, g.jobs, map-append, append_assoc);
  }

  fan_channel-skips :
      (sub : SubscriberItem) (user_id : ℕ) (channel : String) (counts : Counters) (s t : Store)
      (c : Counters)
      → member channel (settings_channels svc) ≡ false
      → fan_channel svc event sub user_id channel counts s ≡ (ok c, t)
      → t ≡ s
  unfolding fan_channel
  fan_channel-skips sub user_id channel counts s t c out h = ground arith

  fan_channel-adds :
      (sub : SubscriberItem) (user_id : ℕ) (channel : String) (counts : Counters) (s t : Store)
      (c : Counters)
      → s.tx ≡ in_tx
      → member channel (settings_channels svc) ≡ true
      → fan_channel svc event sub user_id channel counts s ≡ (ok c, t)
      → let n : ℕ × Wanted = (env.uuid s.world.draws, wanted_row svc event sub user_id channel) in
        (t.db ≡ insert_row (pending_row env n) s.db)
        × (t.tx ≡ in_tx)
        × (t.world.jobs ≡ s.world.jobs ++ send_job n ∷ [])
  unfolding fan_channel uuid4 create_or_get enqueue_job
  fan_channel-adds sub user_id channel counts s t c block known h = ground arith

  added :
      (n : ℕ × Wanted) (s t : Store)
      → (t.db ≡ insert_row (pending_row env n) s.db)
        × (t.tx ≡ in_tx)
        × (t.world.jobs ≡ s.world.jobs ++ send_job n ∷ [])
      → Grew (n.1 ∷ []) s t
  added n s t h = record {
    new = n ∷ [];
    as_wanted = refl;
    attempts = ap (λ (d : Db). d.delivery_attempts) h.0;
    processed = ap (λ (d : Db). d.processed_events) h.0;
    block = h.1;
    jobs = h.2;
  }

  fan_channels-Grew :
      (sub : SubscriberItem) (user_id : ℕ) (channels : List String) (counts : Counters)
      (s t : Store) (c : Counters)
      → s.tx ≡ in_tx
      → fan_channels svc event sub user_id channels counts s ≡ (ok c, t)
      → Grew (wanted_channels svc event sub user_id channels) s t
  unfolding fan_channels wanted_channels
  fan_channels-Grew sub user_id [] counts s t c block h =
      let same : t ≡ s = ground arith in subst (Grew [] s) (sym same) (Grew-nil s block)
  fan_channels-Grew sub user_id (channel ∷ channels) counts s t c block h =
      let (c', s', first, rest) =
        >>=-ok (fan_channel svc event sub user_id channel counts)
          (fan_channels svc event sub user_id channels) s h in
      elim (Bool-cases (member channel (settings_channels svc))) [
        | inl known ↦
            let grew =
              added _ s s'
                (fan_channel-adds sub user_id channel counts s s' c' block known first) in
            rw known
              (Grew-append grew (fan_channels-Grew sub user_id channels c' s' t c grew.block rest))
        | inr unknown ↦
            let same : s' ≡ s =
              fan_channel-skips sub user_id channel counts s s' c' unknown first in
            rw unknown (
              fan_channels-Grew sub user_id channels c' s t c block (
                subst (λ z. fan_channels svc event sub user_id channels c' z ≡ (ok c, t)) same
                  rest))
      ]

  fan_subscriber-Grew :
      (sub : SubscriberItem) (counts : Counters) (s t : Store) (c : Counters) (u : Option ℕ)
      → svc.parse_uuid sub.user_id ≡ u
      → s.tx ≡ in_tx
      → fan_subscriber svc event sub counts s ≡ (ok c, t)
      → Grew (wanted_subscriber svc event sub) s t
  unfolding fan_subscriber wanted_subscriber
  fan_subscriber-Grew sub counts s t c none e block h =
      let same : t ≡ s = ground arith in
      rw (e, wanted_subscriber) (subst (Grew [] s) (sym same) (Grew-nil s block))
  fan_subscriber-Grew sub counts s t c (some user_id) e block h =
      rw (e, wanted_subscriber)
        (fan_channels-Grew sub user_id (normalize_channels svc.lower sub.channels) counts s t c
          block (rw (e, fan_subscriber) at h))

  fan_subscribers-Grew :
      (subs : List SubscriberItem) (counts : Counters) (s t : Store) (c : Counters)
      → s.tx ≡ in_tx
      → fan_subscribers svc event subs counts s ≡ (ok c, t)
      → Grew (wanted svc event subs) s t
  unfolding fan_subscribers wanted
  fan_subscribers-Grew [] counts s t c block h =
      let same : t ≡ s = ground arith in subst (Grew [] s) (sym same) (Grew-nil s block)
  fan_subscribers-Grew (sub ∷ subs) counts s t c block h =
      let (c', s', first, rest) =
        >>=-ok (fan_subscriber svc event sub counts) (fan_subscribers svc event subs) s h in
      let grew = fan_subscriber-Grew sub counts s s' c' _ refl block first in
      Grew-append grew (fan_subscribers-Grew subs c' s' t c grew.block rest)

  -- What follows a page: the next one, or the end.
  abbrev pub after_page : ℕ → SubscribersPage → Counters → Call Counters
  after_page fuel page counts =
      if truthy? page.next_cursor
      then fan_pages svc event fuel page.next_cursor counts
      else pure counts

  pub fan_pages-page :
      (fuel : ℕ) (cursor : Option String) (page : SubscribersPage) (counts : Counters) (s : Store)
      → svc.fetch_page event.topic_id cursor ≡ ok page
      → fan_pages svc event (suc fuel) cursor counts s
        ≡ (fan_subscribers svc event page.items counts >>= after_page fuel page) s
  unfolding fan_pages
  fan_pages-page fuel cursor page counts s fetched = rw fetched

  wanted-append :
      (xs ys : List SubscriberItem)
      → wanted svc event (xs ++ ys) ≡ wanted svc event xs ++ wanted svc event ys
  unfolding wanted
  wanted-append [] ys = refl
  wanted-append (x ∷ xs) ys = simp (wanted-append xs ys, append_assoc)

  fan_pages-no_fuel :
      (cursor : Option String) (counts : Counters) (s t : Store) (c : Counters)
      → ¬ (fan_pages svc event zero cursor counts s ≡ (ok c, t))
  unfolding fan_pages
  fan_pages-no_fuel cursor counts s t c h = cc

  -- Over pages: what all the fetched pages want together.
  pub fan_pages-Grew :
      (n fuel : ℕ) (cursor : Option String) (subs : List SubscriberItem) (counts : Counters)
      (s t : Store) (c : Counters)
      → Pages svc event.topic_id n cursor subs
      → s.tx ≡ in_tx
      → fan_pages svc event fuel cursor counts s ≡ (ok c, t)
      → Grew (wanted svc event subs) s t
  fan_pages-Grew n zero cursor subs counts s t c p block h =
      absurd (fan_pages-no_fuel cursor counts s t c h)
  fan_pages-Grew n (suc fuel) cursor subs counts s t c (last_page page fetched final) block h =
      let (c', s', first, rest) =
        >>=-ok (fan_subscribers svc event page.items counts) (after_page fuel page) s
          (rw (fan_pages-page fuel cursor page counts s fetched) at h) in
      let grew = fan_subscribers-Grew page.items counts s s' c' block first in
      let same : t ≡ s' = ground arith in
      subst (Grew (wanted svc event page.items) s) (sym same) grew
  fan_pages-Grew n (suc fuel) cursor subs counts s t c
        (more_pages {rest = others} page fetched more p) block h =
      let (c', s', first, rest) =
        >>=-ok (fan_subscribers svc event page.items counts) (after_page fuel page) s
          (rw (fan_pages-page fuel cursor page counts s fetched) at h) in
      let grew = fan_subscribers-Grew page.items counts s s' c' block first in
      rw wanted-append (
        Grew-append grew
          (fan_pages-Grew _ fuel page.next_cursor others c' s' t c p grew.block (rw more at rest)))
