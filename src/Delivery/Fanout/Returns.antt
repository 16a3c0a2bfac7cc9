-- ===== src/Delivery/Fanout/Returns.antt =====
-- When a fan-out returns (services/fanout.py).
use mathlib.Core.Path.{subst}
use substy.Base.{
  ℕ, ◌+◌, ◌≤◌, ◌≡◌, ◌≢◌, refl, sym, ap, ◌∙◌, inl, inr, Bool, true, false, ◌&&◌, Option, none, some,
  List, [], ◌∷◌, ◌++◌, String, member, All, All-both, has_row, has_row-append, str_eq, Outcome, ok,
  err, leave, no_tx, in_tx, arith, Bool-cases, ◌==◌, ◌>>=◌, ◌>>◌, pure,
}
use substy.Channels.{normalize_channels}
use substy.Delivery.Model.{DeliveryAttemptRecord, Db, Store, Job, send}
use substy.Delivery.Metrics.{Counters, add_count, inc_jetstream_processed}
use substy.Delivery.Attempts.{same_id, same_target, channel_allowed, create_or_get}
use substy.Delivery.Effects.{update_metrics, uuid4, enqueue_job}
use substy.Delivery.Fanout.{
  NotificationCreatedEvent, SubscriberItem, FanoutService, settings_channels, fan_channel,
  fan_channels, fan_subscriber, fan_subscribers, count_created, process_new,
  process_notification_created,
}
use substy.Delivery.Processed.{same_event}
use substy.Delivery.Fanout.Process.{count_created-db, process-unseen, recorded}
use substy.Delivery.Fanout.Paging.{fan_pages-eq-fan_subscribers}
use substy.Delivery.Fanout.Wanted.{
  Pages, Wanted, wanted_row, wanted_channels, wanted_subscriber, wanted, pending_row,
}

-- No attempt is there for what is wanted, and the table takes its channel.
abbrev pub IsFree : List DeliveryAttemptRecord → Wanted → Type 0
IsFree rows w =
    (has_row (same_target w.notification_id w.user_id w.channel) rows ≡ false)
    × (channel_allowed w.channel ≡ true)

abbrev pub same_wanted : Wanted → Wanted → Bool
same_wanted w v =
    w.notification_id == v.notification_id && w.user_id == v.user_id && str_eq w.channel v.channel

-- Nothing is wanted twice.
abbrev pub AreDistinct : List Wanted → Type 0
AreDistinct [] = Unit
AreDistinct (w ∷ ws) = All (λ v. same_wanted w v ≡ false) ws × AreDistinct ws

module _ (svc : FanoutService) (event : NotificationCreatedEvent) where
  open svc use {env}

  -- The fan-out can go on with these attempts: the ids to come are new.
  pub record IsReady (ws : List Wanted) (s : Store) : Type 0 where
    pub block : s.tx ≡ in_tx
    pub new_ids :
        (k : ℕ) → has_row (same_id (env.uuid (s.world.draws + k))) s.db.delivery_attempts ≡ false
    pub free : All (IsFree s.db.delivery_attempts) ws
    pub distinct : AreDistinct ws

  module _ (injective : (j k : ℕ) → env.uuid j ≡ env.uuid k → j ≡ k)
      (queue_up : (job : Job) → env.enqueue_ok job ≡ true) where
    -- The state after an attempt was added for `w`.
    abbrev added : Wanted → Store → Store
    added w s = record s {
      db = record s.db {
        delivery_attempts =
            s.db.delivery_attempts ++ pending_row env (env.uuid s.world.draws, w) ∷ [];
      };
      world = record s.world {
        draws = s.world.draws + 1;
        jobs = s.world.jobs ++ send w.channel (env.uuid s.world.draws) ∷ [];
      };
    }

    added-IsReady :
        (w : Wanted) (ws : List Wanted) (s : Store) → IsReady (w ∷ ws) s → IsReady ws (added w s)
    added-IsReady w ws s r = record {
      block = r.block;
      new_ids = new_id;
      free =
          All-both (IsFree s.db.delivery_attempts) (λ v. same_wanted w v ≡ false)
            (IsFree (added w s).db.delivery_attempts) ws still_free r.free.1 r.distinct.0;
      distinct = r.distinct.1;
    }
      where
        new_id :
            (k : ℕ)
            → has_row (same_id (env.uuid (s.world.draws + 1 + k))) (added w s).db.delivery_attempts
              ≡ false
        new_id k =
            let shifted : s.world.draws + (1 + k) ≡ s.world.draws + 1 + k = omega arith in
            let old =
              subst (λ j. has_row (same_id (env.uuid j)) s.db.delivery_attempts ≡ false) shifted
                (r.new_ids (1 + k)) in
            let differs : env.uuid s.world.draws ≢ env.uuid (s.world.draws + 1 + k) =
              λ e. let q = injective s.world.draws (s.world.draws + 1 + k) e in omega (arith, q) in
            rw
              (has_row-append (same_id (env.uuid (s.world.draws + 1 + k))) s.db.delivery_attempts
                (pending_row env (env.uuid s.world.draws, w) ∷ []))
              (ground (arith, old, differs))

        still_free :
            (v : Wanted)
            → IsFree s.db.delivery_attempts v
            → same_wanted w v ≡ false
            → IsFree (added w s).db.delivery_attempts v
        still_free v f d = (
          rw
              (has_row-append (same_target v.notification_id v.user_id v.channel)
                s.db.delivery_attempts (pending_row env (env.uuid s.world.draws, w) ∷ []))
              (ground (arith, f.0, d)),
          f.1,
        )

    fan_channel-ready :
        (sub : SubscriberItem) (user_id : ℕ) (channel : String) (counts : Counters)
        (ws : List Wanted) (s : Store)
        → IsReady (wanted_row svc event sub user_id channel ∷ ws) s
        → member channel (settings_channels svc) ≡ true
        → fan_channel svc event sub user_id channel counts s
          ≡ (ok (add_count channel 1 counts), added (wanted_row svc event sub user_id channel) s)
    unfolding fan_channel uuid4 create_or_get enqueue_job
    fan_channel-ready sub user_id channel counts ws s r supported = ground (
      arith,
      r.block,
      r.new_ids 0,
      r.free.0,
      queue_up (send channel (env.uuid s.world.draws)),
      supported,
    )

    -- A part of the fan-out that returns, ready for what is left.
    abbrev Goes : List Wanted → Outcome Counters × Store → Type 0
    Goes ws r = (counts : Counters) × (t : Store) × (r ≡ (ok counts, t)) × IsReady ws t

    wanted-skipped :
        (sub : SubscriberItem) (user_id : ℕ) (c : String) (cs : List String)
        → member c (settings_channels svc) ≡ false
        → wanted_channels svc event sub user_id (c ∷ cs) ≡ wanted_channels svc event sub user_id cs
    unfolding wanted_channels
    wanted-skipped sub user_id c cs h = ground arith

    wanted-added :
        (sub : SubscriberItem) (user_id : ℕ) (c : String) (cs : List String)
        → member c (settings_channels svc) ≡ true
        → wanted_channels svc event sub user_id (c ∷ cs)
          ≡ wanted_row svc event sub user_id c ∷ wanted_channels svc event sub user_id cs
    unfolding wanted_channels
    wanted-added sub user_id c cs h = ground arith

    fan_channel-skipped :
        (sub : SubscriberItem) (user_id : ℕ) (c : String) (counts : Counters) (s : Store)
        → member c (settings_channels svc) ≡ false
        → fan_channel svc event sub user_id c counts s ≡ (ok counts, s)
    unfolding fan_channel
    fan_channel-skipped sub user_id c counts s h = ground arith

    -- On from a part that returned.
    >>=-Goes :
        (m : Store → Outcome Counters × Store) (f : Counters → Store → Outcome Counters × Store)
        (ws : List Wanted) (s t : Store) (counts : Counters)
        → m s ≡ (ok counts, t)
        → Goes ws (f counts t)
        → Goes ws ((m >>= f) s)
    >>=-Goes m f ws s t counts e g =
        subst (Goes ws)
          (sym (
            ap
              (λ r. elim r.0 as (λ _. Outcome Counters × Store) [
                | ok a ↦ f a r.1
                | err x ↦ (err x, r.1)
              ])
              e))
          g

    fan_channels-ready :
        (sub : SubscriberItem) (user_id : ℕ) (channels : List String) (counts : Counters)
        (ws : List Wanted) (s : Store)
        → IsReady (wanted_channels svc event sub user_id channels ++ ws) s
        → Goes ws (fan_channels svc event sub user_id channels counts s)
    unfolding fan_channels wanted_channels
    fan_channels-ready sub user_id [] counts ws s r = (counts, s, refl, r)
    fan_channels-ready sub user_id (c ∷ cs) counts ws s r =
        elim (Bool-cases (member c (settings_channels svc))) [
          | inr skipped ↦
              >>=-Goes (fan_channel svc event sub user_id c counts)
                (fan_channels svc event sub user_id cs) ws s s counts
                (fan_channel-skipped sub user_id c counts s skipped)
                (fan_channels-ready sub user_id cs counts ws s
                  (subst (λ l. IsReady (l ++ ws) s) (wanted-skipped sub user_id c cs skipped) r))
          | inl supported ↦
              let w = wanted_row svc event sub user_id c in
              let left = wanted_channels svc event sub user_id cs ++ ws in
              let ready =
                subst (λ l. IsReady (l ++ ws) s) (wanted-added sub user_id c cs supported) r in
              >>=-Goes (fan_channel svc event sub user_id c counts)
                (fan_channels svc event sub user_id cs) ws s (added w s) (add_count c 1 counts)
                (fan_channel-ready sub user_id c counts left s ready supported)
                (fan_channels-ready sub user_id cs (add_count c 1 counts) ws (added w s)
                  (added-IsReady w left s ready))
        ]

    fan_subscriber-ready :
        (sub : SubscriberItem) (counts : Counters) (ws : List Wanted) (s : Store)
        → IsReady (wanted_subscriber svc event sub ++ ws) s
        → Goes ws (fan_subscriber svc event sub counts s)
    unfolding fan_subscriber wanted_subscriber
    fan_subscriber-ready sub counts ws s r = by_id (svc.parse_uuid sub.user_id) r
      where
        by_id :
            (u : Option ℕ)
            → IsReady
                ((elim u as (λ _. List Wanted) [
                  | none ↦ []
                  | some user_id ↦
                      wanted_channels svc event sub user_id
                        (normalize_channels svc.lower sub.channels)
                ])
                  ++ ws)
                s
            → Goes ws (
                (elim u as (λ _. Store → Outcome Counters × Store) [
                  | none ↦ pure counts
                  | some user_id ↦
                      fan_channels svc event sub user_id
                        (normalize_channels svc.lower sub.channels)
                        counts
                ])
                  s)
        by_id none k = (counts, s, refl, k)
        by_id (some user_id) k =
            fan_channels-ready sub user_id (normalize_channels svc.lower sub.channels) counts ws s k

    fan_subscribers-ready :
        (subs : List SubscriberItem) (counts : Counters) (s : Store)
        → IsReady (wanted svc event subs) s
        → Goes [] (fan_subscribers svc event subs counts s)
    unfolding fan_subscribers wanted
    fan_subscribers-ready [] counts s r = (counts, s, refl, r)
    fan_subscribers-ready (sub ∷ subs) counts s r =
        let (counts', t, e, ready) = fan_subscriber-ready sub counts (wanted svc event subs) s r in
        >>=-Goes (fan_subscriber svc event sub counts) (fan_subscribers svc event subs) [] s t
          counts' e (fan_subscribers-ready subs counts' t ready)

    ends_true :
        (counts : Counters) (s : Store)
        → ((count_created svc event counts >> (update_metrics inc_jetstream_processed >> pure true))
            s).0
          ≡ ok true
    ends_true counts s = ground (arith, (count_created-db svc event counts s).0)

    process_new-returns :
        (n fuel : ℕ) (subs : List SubscriberItem) (s : Store)
        → Pages svc event.topic_id n none subs
        → n ≤ fuel
        → IsReady (wanted svc event subs) s
        → (process_new svc event fuel s).0 ≡ ok true
    unfolding process_new
    process_new-returns n fuel subs s p enough r =
        let (counts, t, e, ready) = fan_subscribers-ready subs [] s r in
        let went = fan_pages-eq-fan_subscribers svc event n fuel none subs [] s p enough ∙ e in
        let rest = λ (c : Counters).
          count_created svc event c >> (update_metrics inc_jetstream_processed >> pure true) in
        ap
          (λ r.
            (elim r.0 as (λ _. Outcome Bool × Store) [
              | ok a ↦ rest a r.1
              | err x ↦ (err x, r.1)
            ]).0)
          went
        ∙ ends_true counts t

    leave-returns :
        (before : Db) (r : Outcome Bool × Store) → r.0 ≡ ok true → (leave before r).0 ≡ ok true
    leave-returns before (ok b, t) h = h
    leave-returns before (err e, t) h = h

    -- The fan-out returns: if the event is new, the pages of subscribers end within the fuel, the
    -- random ids differ from each other and from those in the table, the queue takes every job, and
    -- what is wanted is wanted once, not in the table yet and for channels that the table takes, then
    -- an idle session's call returns True.
    pub process_notification_created-returns :
        (n fuel : ℕ) (subject : String) (subs : List SubscriberItem) (s : Store)
        → s.tx ≡ no_tx
        → Pages svc event.topic_id n none subs
        → n ≤ fuel
        → has_row (same_event event.event_id) s.db.processed_events ≡ false
        → ((k : ℕ)
            → has_row (same_id (env.uuid (s.world.draws + k))) s.db.delivery_attempts ≡ false)
        → All (IsFree s.db.delivery_attempts) (wanted svc event subs)
        → AreDistinct (wanted svc event subs)
        → (process_notification_created svc event fuel subject s).0 ≡ ok true
    process_notification_created-returns n fuel subject subs s idle p enough new ids free distinct =
        rw (process-unseen svc event fuel subject s idle new) (
          leave-returns s.db _ (
            process_new-returns n fuel subs (recorded svc event subject s) p enough
              (record { block = refl; new_ids = ids; free = free; distinct = distinct })))
