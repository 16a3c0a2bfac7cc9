-- ===== src/Notifications/Publisher/Batch.antt =====
-- A batch as one change of the table (services/outbox_publisher.py).
use mathlib.Core.List.{append_assoc, append-nil}
use mathlib.Core.Path.{subst}
use substy.Base.{
  >>=-after, sym, ℕ, ◌+◌, ◌≡◌, ◌≢◌, refl, ◌∙◌, ap, true, false, ◌&&◌, not, if◌then◌else◌, Bool,
  Option, none, some, List, [], ◌∷◌, ◌++◌, String, All, map, take, take_chars, find_row, rows_where,
  update_where, count_where, sort_by, leb, arith, Outcome, ok, no_tx, in_tx, UniqueKeys,
  UniqueKeys-rows_where, UniqueKeys-sort_by, UniqueKeys-take,
}
use substy.Notifications.Model.{OutboxEventRecord, Db, Store, Env}
use substy.Notifications.Outbox.{
  same_event, is_unpublished, event_id, lock_unpublished_batch, mark_published, mark_failed,
  count_unpublished,
}
use substy.Notifications.Publisher.{
  publish_answer, publish_event, publish_events, publish_batch, set_outbox_unpublished_count,
}

module _ (env : Env) where
  -- The row of an event that JetStream was offered: published if it was taken, or one more failed
  -- attempt with the cause cut to 2000 characters.
  abbrev pub offered : Option String → OutboxEventRecord → OutboxEventRecord
  offered none x = record x {
    published_at = some env.db_now;
    publish_attempts = x.publish_attempts + 1;
    last_error = none;
  }
  offered (some message) x = record x {
    publish_attempts = x.publish_attempts + 1;
    last_error = some (take_chars 2000 message);
  }

  -- A row of the table after a batch.
  abbrev pub after_batch : List OutboxEventRecord → OutboxEventRecord → OutboxEventRecord
  after_batch batch x = elim (find_row (same_event x.id) batch) [
    | none ↦ x
    | some e ↦ offered (env.publish_error e) x
  ]

  abbrev is_taken : Option String → Bool
  is_taken none = true
  is_taken (some message) = false

  -- The events of a batch that JetStream takes, in order.
  abbrev pub taken : List OutboxEventRecord → List OutboxEventRecord
  taken batch = rows_where (λ e. is_taken (env.publish_error e)) batch

  -- The oldest events that are neither published nor locked by another session.
  abbrev pub next_batch : Db → List OutboxEventRecord
  next_batch d = take env.settings.outbox_batch_size (
      sort_by (λ e f. leb e.created_at f.created_at)
        (rows_where (λ e. is_unpublished e && not (env.locked e.id)) d.outbox_events))

  after_batch-none : (xs : List OutboxEventRecord) → map (after_batch []) xs ≡ xs
  after_batch-none [] = refl
  after_batch-none (x ∷ xs) = ap (λ (l : List OutboxEventRecord). x ∷ l) (after_batch-none xs)

  not_in_rest :
      (i : ℕ) (es : List OutboxEventRecord)
      → All (λ y. event_id y ≢ i) es
      → find_row (same_event i) es ≡ none
  not_in_rest i [] h = refl
  not_in_rest i (e ∷ es) h = ground (arith, h.0, not_in_rest i es h.1)

  -- One event, and then the rest of the batch.
  after_batch-step :
      (e : OutboxEventRecord) (es xs : List OutboxEventRecord) (o : Option String)
      → env.publish_error e ≡ o
      → All (λ y. event_id y ≢ event_id e) es
      → map (after_batch es) (update_where (same_event e.id) (offered o) xs)
        ≡ map (after_batch (e ∷ es)) xs
  after_batch-step e es [] o q new = refl
  after_batch-step e es (x ∷ xs) none q new =
      ground (arith, q, not_in_rest e.id es new, after_batch-step e es xs none q new)
  after_batch-step e es (x ∷ xs) (some m) q new =
      ground (arith, q, not_in_rest e.id es new, after_batch-step e es xs (some m) q new)

  -- The answer to one event, in the block.
  publish_event_lem :
      (e : OutboxEventRecord) (s : Store)
      → s.tx ≡ in_tx
      → let (result, s') = publish_event env e s in
        (result ≡ ok tt)
        × (s'.tx ≡ in_tx)
        × (s'.db.outbox_events
            ≡ update_where (same_event e.id) (offered (env.publish_error e)) s.db.outbox_events)
        × (s'.db.notifications ≡ s.db.notifications)
        × (s'.world.published ≡ (
            if is_taken (env.publish_error e)
            then s.world.published ++ e ∷ []
            else s.world.published))
  unfolding publish_event publish_answer mark_published mark_failed
  publish_event_lem e s in_block = ground (arith, in_block)

  -- What a batch makes of a store.
  abbrev Offers : List OutboxEventRecord → Store → Outcome (Unit {0}) × Store → Type 0
  Offers batch s (result, s') =
      (result ≡ ok tt)
      × (s'.tx ≡ in_tx)
      × (s'.db.outbox_events ≡ map (after_batch batch) s.db.outbox_events)
      × (s'.db.notifications ≡ s.db.notifications)
      × (s'.world.published ≡ s.world.published ++ taken batch)

  taken-step :
      (e : OutboxEventRecord) (es before : List OutboxEventRecord) (b : Bool)
      → is_taken (env.publish_error e) ≡ b
      → (if b then before ++ e ∷ [] else before) ++ taken es ≡ before ++ taken (e ∷ es)
  taken-step e es before true q = rw q (append_assoc before (e ∷ []) (taken es))
  taken-step e es before false q = rw q refl

  publish_events-Offers :
      (batch : List OutboxEventRecord) (s : Store)
      → s.tx ≡ in_tx
      → UniqueKeys event_id batch
      → Offers batch s (publish_events env batch s)
  unfolding publish_events
  publish_events-Offers [] s in_block u = (
    refl,
    in_block,
    sym (after_batch-none s.db.outbox_events),
    refl,
    sym (append-nil s.world.published),
  )
  publish_events-Offers (e ∷ es) s in_block u =
      let first = publish_event_lem e s in_block in
      let rest = publish_events-Offers es (publish_event env e s).1 first.1 u.1 in
      subst (Offers (e ∷ es) s)
        (sym (>>=-after (publish_event env e) (λ _. publish_events env es) s tt first.0))
        (
          rest.0,
          rest.1,
          rest.2
              ∙ ap (map (after_batch es)) first.2
              ∙ after_batch-step e es s.db.outbox_events _ refl u.0,
          rest.3 ∙ first.3,
          rest.4
              ∙ ap (λ (l : List OutboxEventRecord). l ++ taken es) first.4
              ∙ taken-step e es s.world.published _ refl,
        )

  next_batch_unique :
      (d : Db) → UniqueKeys event_id d.outbox_events → UniqueKeys event_id (next_batch d)
  next_batch_unique d u =
      UniqueKeys-take event_id env.settings.outbox_batch_size _
        (UniqueKeys-sort_by event_id _ _ (UniqueKeys-rows_where event_id _ d.outbox_events u))

  -- A batch is one change of the table. In an idle session, with unique ids, it returns; it offers
  -- JetStream the oldest events that are neither published nor locked, as many as a batch may have;
  -- each of those rows is then published, if its event was taken, or has one more attempt and the
  -- cause, if it was refused, and no other row has changed, nor any notification; JetStream has the
  -- events that it took, in order; and the gauge shows how many rows are still unpublished.
  pub publish_batch_lem :
      (s : Store)
      → s.tx ≡ no_tx
      → UniqueKeys event_id s.db.outbox_events
      → let (result, s') = publish_batch env s in
        (result ≡ ok tt)
        × (s'.tx ≡ no_tx)
        × (s'.db.outbox_events ≡ map (after_batch (next_batch s.db)) s.db.outbox_events)
        × (s'.db.notifications ≡ s.db.notifications)
        × (s'.world.published ≡ s.world.published ++ taken (next_batch s.db))
        × (s'.world.metrics.outbox_unpublished_count
            ≡ count_where is_unpublished s'.db.outbox_events)
  unfolding publish_batch lock_unpublished_batch count_unpublished set_outbox_unpublished_count
  publish_batch_lem s idle u =
      let batch = next_batch s.db in
      let offers =
        publish_events-Offers batch (record s { tx = in_tx }) refl (next_batch_unique s.db u) in
      ground (arith, idle, offers)
