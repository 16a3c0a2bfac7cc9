-- ===== src/Delivery/Consumer/Acks.antt =====
-- What an acknowledgement of consumers/notification_created_consumer.py vouches for.
use substy.Base.{
  ℕ, ◌+◌, ◌≡◌, refl, inl, inr, arith, Bool, true, false, Option, none, some, List, [], ◌∷◌, ◌++◌,
  String, All, All-append, All-mono, length, length-append, has_row, has_row-append, if◌then◌else◌,
  Outcome, ok, err, no_tx,
}
use substy.Delivery.Model.{Db, Store}
use substy.Delivery.Processed.{same_event}
use substy.Delivery.Fanout.{
  NotificationCreatedEvent, FanoutService, SubscriberItem, process_notification_created,
}
use substy.Delivery.Fanout.Wanted.{wanted, Pages}
use substy.Delivery.Fanout.Process.{Handled, event_row, process_notification_created_lem}
use substy.Delivery.Consumer.{
  replied, answered, Msg, Reply, acked, nacked, Consumer, handle_message, handle_messages,
}

abbrev pub is_recorded : NotificationCreatedEvent → Db → Bool
is_recorded event d = has_row (same_event event.event_id) d.processed_events

-- The event of an acknowledged message is recorded.
abbrev pub IsSettled : (String → Option NotificationCreatedEvent) → Db → Reply → Type 0
IsSettled parse d (acked msg) =
    (event : NotificationCreatedEvent) × (parse msg.«data» ≡ some event)
    × (is_recorded event d ≡ true)
IsSettled parse d (nacked msg) = Unit

-- What was recorded stays so, and the session is idle.
Grows : Store → Store → Type 0
Grows s t =
    ((event : NotificationCreatedEvent)
      → is_recorded event s.db ≡ true
      → is_recorded event t.db ≡ true)
    × (t.tx ≡ no_tx)

module _ (svc : FanoutService) (event : NotificationCreatedEvent) where
  handled-Grows :
      (n fuel : ℕ) (subject : String) (subs : List SubscriberItem) (s : Store)
      → s.tx ≡ no_tx
      → Pages svc event.topic_id n none subs
      → Grows s (process_notification_created svc event fuel subject s).1
        × ((b : Bool)
            → (process_notification_created svc event fuel subject s).0 ≡ ok b
            → is_recorded event (process_notification_created svc event fuel subject s).1.db ≡ true)
  unfolding Grows
  handled-Grows n fuel subject subs s idle p =
      by_case (process_notification_created svc event fuel subject s)
        (process_notification_created_lem svc event n fuel subject subs s idle p)
    where
      by_case :
          (r : Outcome Bool × Store)
          → Handled svc event subject (wanted svc event subs) s r
          → Grows s r.1 × ((b : Bool) → r.0 ≡ ok b → is_recorded event r.1.db ≡ true)
      by_case r (inl (returned, seen, same)) =
          ((λ e k. rw same k, rw same idle), λ b h. rw same seen)
      by_case r (inr (inl (returned, new, created))) = (
        (λ e k. rw created.processed (kept e k), created.block),
        λ b h. rw created.processed added,
      )
        where
          kept :
              (e : NotificationCreatedEvent)
              → is_recorded e s.db ≡ true
              → has_row
                  (same_event e.event_id)
                  (s.db.processed_events ++ event_row svc event subject ∷ [])
                ≡ true
          kept e k = ground (
            arith,
            k,
            has_row-append (same_event e.event_id) s.db.processed_events
                (event_row svc event subject ∷ []),
          )

          added :
              has_row
                (same_event event.event_id)
                (s.db.processed_events ++ event_row svc event subject ∷ [])
              ≡ true
          added = ground (
            arith,
            has_row-append (same_event event.event_id) s.db.processed_events
                (event_row svc event subject ∷ []),
          )
      by_case r (inr (inr (x, raised, new, same, idle'))) = ((λ e k. rw same k, idle'), λ b h. cc)

IsSettled-Grows :
    (parse : String → Option NotificationCreatedEvent) (s t : Store) (reply : Reply)
    → Grows s t
    → IsSettled parse s.db reply
    → IsSettled parse t.db reply
unfolding Grows
IsSettled-Grows parse s t (acked msg) g (event, parsed, seen) = (event, parsed, g.0 event seen)
IsSettled-Grows parse s t (nacked msg) g h = tt

module _ (parse : String → Option NotificationCreatedEvent) (service : Msg → FanoutService)
    (ack_ok : Msg → Bool) (fuel : ℕ) where
  -- An idle session, and every acknowledged message settled.
  abbrev pub IsSound : Consumer → Type 0
  IsSound c = (c.store.tx ≡ no_tx) × All (IsSettled parse c.store.db) c.replies

  -- The pages of every message's event end.
  abbrev pub PagesEnd : Type 0
  PagesEnd =
      (msg : Msg) (topic_id : ℕ)
      → (n : ℕ) × (subs : List SubscriberItem) × Pages (service msg) topic_id n none subs

  abbrev OneMore : Consumer → Consumer → Type 0
  OneMore c d = IsSound d × (length d.replies ≡ length c.replies + 1)

  replied-IsSound :
      (reply : Reply) (c : Consumer) (t : Store)
      → IsSound c
      → Grows c.store t
      → IsSettled parse t.db reply
      → OneMore c (replied reply t c.replies)
  unfolding Grows
  replied-IsSound reply c t (idle, settled) g h = (
    (
      g.1,
      All-append (IsSettled parse t.db) c.replies (reply ∷ [])
          (All-mono (IsSettled parse c.store.db) (IsSettled parse t.db) c.replies
            (λ x k. IsSettled-Grows parse c.store t x g k) settled)
          (h, tt),
    ),
    length-append c.replies (reply ∷ []),
  )

  answered-IsSound :
      (msg : Msg) (event : NotificationCreatedEvent) (c : Consumer) (r : Outcome Bool × Store)
      → parse msg.«data» ≡ some event
      → IsSound c
      → Grows c.store r.1
      → ((b : Bool) → r.0 ≡ ok b → is_recorded event r.1.db ≡ true)
      → OneMore c (answered parse service ack_ok fuel msg c.replies r)
  answered-IsSound msg event c (err e, t) parsed sound g h =
      replied-IsSound (nacked msg) c t sound g tt
  answered-IsSound msg event c (ok b, t) parsed sound g h = by_ack (ack_ok msg)
    where
      by_ack : (b : Bool) → OneMore c (replied (if b then acked msg else nacked msg) t c.replies)
      by_ack true = replied-IsSound (acked msg) c t sound g (event, parsed, h b refl)
      by_ack false = replied-IsSound (nacked msg) c t sound g tt

  -- One message.
  handle_message-IsSound :
      (msg : Msg) (c : Consumer)
      → PagesEnd
      → IsSound c
      → OneMore c (handle_message parse service ack_ok fuel msg c)
  unfolding handle_message Grows
  handle_message-IsSound msg c p sound = by_parse (parse msg.«data») refl
    where
      by_parse :
          (o : Option NotificationCreatedEvent)
          → parse msg.«data» ≡ o
          → OneMore c (elim o as (λ _. Consumer) [
            | none ↦ replied (nacked msg) c.store c.replies
            | some event ↦
                answered parse service ack_ok fuel msg c.replies
                  (process_notification_created (service msg) event fuel msg.subject c.store)
          ])
      by_parse none e = replied-IsSound (nacked msg) c c.store sound ((λ x k. k), sound.0) tt
      by_parse (some event) e =
          let (n, subs, pages) = p msg event.topic_id in
          let (g, recorded) =
            handled-Grows (service msg) event n fuel msg.subject subs c.store sound.0 pages in
          answered-IsSound msg event c _ e sound g recorded

  -- At-least-once handling: where the pages of every topic's subscribers end, a fetch adds as many
  -- answers as it has messages, and every message that was acknowledged, in this fetch or before, is
  -- one whose data is an event that the database has recorded as processed; the session is idle at
  -- the end as it was at the start.
  pub handle_messages-IsSound :
      (messages : List Msg) (c : Consumer)
      → PagesEnd
      → IsSound c
      → IsSound (handle_messages parse service ack_ok fuel messages c)
        × (length (handle_messages parse service ack_ok fuel messages c).replies
            ≡ length c.replies + length messages)
  unfolding handle_messages
  handle_messages-IsSound [] c p sound = (sound, omega arith)
  handle_messages-IsSound (msg ∷ messages) c p sound =
      let (next, counted) = handle_message-IsSound msg c p sound in
      let (rest, all) =
        handle_messages-IsSound messages (handle_message parse service ack_ok fuel msg c) p next in
      (rest, omega (arith, all, counted))
