-- ===== src/Delivery/Processed.antt =====
-- repositories/processed_events.py over the table delivery.processed_events.
use substy.Base.{
  ℕ, Bool, true, false, [], ◌∷◌, ◌++◌, String, ◌==◌, str_eq, if◌then◌else◌, has_row, Outcome, ok,
  err, postgres, statement, refuse,
}
use substy.Delivery.Model.{ProcessedEventRecord, Store, Call, Env}

abbrev pub same_event : ℕ → ProcessedEventRecord → Bool
same_event event_id e = e.event_id == event_id

-- INSERT, with the primary key on `event_id`.
unfoldable pub insert_event : ProcessedEventRecord → Call (Unit {0})
insert_event e s =
    if has_row (same_event e.event_id) s.db.processed_events then refuse "23505" s else (
      ok tt,
      record s { db = record s.db { processed_events = s.db.processed_events ++ e ∷ [] } },
    )

-- `except asyncpg.PostgresError`
unfoldable pub on_insert : Outcome (Unit {0}) × Store → Outcome Bool × Store
on_insert (ok _, s) = (ok true, s)
on_insert (err (postgres sqlstate), s) =
    if str_eq sqlstate "23505" then (ok false, s) else (err (postgres sqlstate), s)
on_insert (err e, s) = (err e, s)

unfoldable pub try_mark_processed : Env → ℕ → String → Call Bool
unfolding insert_event on_insert
try_mark_processed env event_id subject s = on_insert (
    statement
      (insert_event (record { event_id = event_id; subject = subject; processed_at = env.db_now }))
      s)
