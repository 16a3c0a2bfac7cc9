-- ===== src/Delivery/Worker/Lives.antt =====
-- Delivery attempts over any number of jobs of the worker (workers/arq_worker.py).
use mathlib.Core.Path.{subst}
use substy.Base.{
  sym, All-find_row, ℕ, ◌≡◌, ◌≢◌, ◌⊎◌, refl, inl, inr, ◌≤◌, false, some, String, All, find_row,
  arith, Bool-cases, Option-cases, str_eq, UniqueKeys-update,
}
use substy.Delivery.Model.{
  DeliveryAttemptRecord, Status, pending, sent, failed, dead, Db, Store, Job,
}
use substy.Delivery.Attempts.{same_id}
use substy.Delivery.Effects.{enqueue_job}
use substy.Delivery.Executor.{Service, execute_send, is_final}
use substy.Delivery.Executor.Rows.{Touches, execute_send-Touches, execute_send-missing}
use substy.Delivery.Executor.Lifecycle.{
  UniqueIds, Fits, Evolves, execute_send-Fits, execute_send-Evolves,
}
use substy.Delivery.Worker.{send_channel, retry_channel, send_function, perform, Runs, idle, job}

-- What becomes of a row: it stays as it is, or it was neither sent nor dead, it is no longer
-- pending, it delivers the same to the same user, and its attempt number has not fallen.
abbrev pub Outlives : DeliveryAttemptRecord → DeliveryAttemptRecord → Type 0
Outlives a b =
    (b ≡ a)
    ⊎ ((a.status ≢ sent)
        × (a.status ≢ dead)
        × (b.status ≢ pending)
        × (b.id ≡ a.id)
        × (b.notification_id ≡ a.notification_id)
        × (b.user_id ≡ a.user_id)
        × (b.channel ≡ a.channel)
        × (b.payload ≡ a.payload)
        × (a.attempt_no ≤ b.attempt_no))

open_status : (svc : Service) (st : Status) → is_final svc st ≡ false → (st ≢ sent) × (st ≢ dead)
open_status svc pending h = (ground arith, ground arith)
open_status svc failed h = (ground arith, ground arith)
open_status svc sent h = cc
open_status svc dead h = cc

Evolves-Outlives : (svc : Service) (a b : DeliveryAttemptRecord) → Evolves svc a b → Outlives a b
Evolves-Outlives svc a b (inl e) = inl e
Evolves-Outlives svc a b (inr (o, (i, n, u, c, p), low, high, st)) =
    inr ((open_status svc a.status o).0, (open_status svc a.status o).1, st, i, n, u, c, p, low)

Outlives-trans : (a b c : DeliveryAttemptRecord) → Outlives a b → Outlives b c → Outlives a c
Outlives-trans a b c (inl e) h = rw (← e) h
Outlives-trans a b c (inr h) (inl e) = rw e (inr h)
Outlives-trans a b c (inr (x, y, z, i, n, u, k, p, l)) (inr (x', y', z', i', n', u', k', p', l')) =
    inr (x, y, z', cc, cc, cc, cc, cc, omega arith)

module _ (svc : Service) where
  -- A job leaves the tables alone or is a call of the executor.
  abbrev pub SendsOrKeeps : Store → Store → Type 0
  SendsOrKeeps s t = (t.db ≡ s.db) ⊎ ((i : ℕ) × (t ≡ (execute_send svc i s).1))

  send_function-cases :
      (channel : String) (attempt_id : ℕ) (s : Store)
      → SendsOrKeeps s (send_function svc channel attempt_id s).1
  unfolding send_function send_channel
  send_function-cases channel attempt_id s = elim (Bool-cases (str_eq channel "push")) [
    | inl push ↦ rw push (inr (attempt_id, refl))
    | inr not_push ↦ elim (Bool-cases (str_eq channel "email")) [
      | inl email ↦ rw (not_push, email) (inr (attempt_id, refl))
      | inr not_email ↦ elim (Bool-cases (str_eq channel "web")) [
        | inl web ↦ rw (not_push, not_email, web) (inr (attempt_id, refl))
        | inr not_web ↦ rw (not_push, not_email, not_web) (inl refl)
      ]
    ]
  ]

  perform-cases : (j : Job) (s : Store) → SendsOrKeeps s (perform svc j s).1
  unfolding perform retry_channel enqueue_job
  perform-cases (Job.send channel attempt_id) s = send_function-cases channel attempt_id s
  perform-cases (Job.retry_attempt attempt_id channel delay) s = inl (ground arith)

  execute_send-UniqueIds :
      (attempt_id : ℕ) (s : Store)
      → UniqueIds s.db.delivery_attempts
      → UniqueIds (execute_send svc attempt_id s).1.db.delivery_attempts
  execute_send-UniqueIds attempt_id s u =
      elim (Option-cases (find_row (same_id attempt_id) s.db.delivery_attempts)) [
        | inl missing ↦ rw (execute_send-missing svc attempt_id s missing) u
        | inr (a, found) ↦ touched a (execute_send-Touches svc a attempt_id s found)
      ]
    where
      touched :
          (a : DeliveryAttemptRecord) {after : Db}
          → Touches svc a s.db after
          → UniqueIds after.delivery_attempts
      touched a (inl same) = rw same u
      touched a (inr (f, k, e, b)) =
          rw e (UniqueKeys-update (λ r. r.id) (same_id a.id) f s.db.delivery_attempts k u)

-- What is known of the tables and of the row with the id `j`, first found as `r`.
record Alive (top : ℕ) (j : ℕ) (r : DeliveryAttemptRecord) (db : Db) : Type 0 where
  ids : UniqueIds db.delivery_attempts
  fits : All (Fits top) db.delivery_attempts
  now : DeliveryAttemptRecord
  there : find_row (same_id j) db.delivery_attempts ≡ some now
  lived : Outlives r now

module _ (svc : Service) (j : ℕ) (r : DeliveryAttemptRecord) where
  abbrev AliveIn : Db → Type 0
  AliveIn db = Alive svc.settings.delivery_max_attempts j r db

  execute_send-Alive :
      (attempt_id : ℕ) (s : Store)
      → 1 ≤ svc.settings.delivery_max_attempts
      → AliveIn s.db
      → AliveIn (execute_send svc attempt_id s).1.db
  execute_send-Alive attempt_id s h a =
      let evolved = execute_send-Evolves svc attempt_id j s a.now a.there in
      record {
        ids = execute_send-UniqueIds svc attempt_id s a.ids;
        fits = execute_send-Fits svc attempt_id s h a.ids a.fits;
        now = evolved.0;
        there = evolved.1;
        lived =
            Outlives-trans r a.now evolved.0 a.lived
              (Evolves-Outlives svc a.now evolved.0 evolved.2);
      }

  perform-Alive :
      (todo : Job) (s : Store)
      → 1 ≤ svc.settings.delivery_max_attempts
      → AliveIn s.db
      → AliveIn (perform svc todo s).1.db
  perform-Alive todo s h a = elim (perform-cases svc todo s) [
    | inl same ↦ rw same a
    | inr (attempt_id, e) ↦ rw e (execute_send-Alive attempt_id s h a)
  ]

Runs-Alive :
    (top j : ℕ) (r : DeliveryAttemptRecord) {s t : Store}
    → 1 ≤ top
    → Runs top s t
    → Alive top j r s.db
    → Alive top j r t.db
Runs-Alive top j r h idle a = a
Runs-Alive top j r {s} h (job svc todo e rest) a = Runs-Alive top j r h rest (
    subst (λ n. Alive n j r (perform svc todo s).1.db) e
      (perform-Alive svc j r todo s (subst (λ n. 1 ≤ n) (sym e) h)
        (subst (λ n. Alive n j r s.db) (sym e) a)))

-- The life of an attempt in the worker: with at least one attempt allowed, over any jobs, in any
-- order, repeated or late, whatever they raise, the row of an attempt is still found under its
-- id. It fits its status as far as attempts and retry time go, and it is unchanged if it was sent
-- or dead; otherwise it is unchanged or no longer pending, with the same notification, user,
-- channel and payload and no lower attempt number. This holds where ids are unique and every row
-- fits its status before.
pub Runs-Outlives :
    (top j : ℕ) (s t : Store) (r : DeliveryAttemptRecord)
    → 1 ≤ top
    → UniqueIds s.db.delivery_attempts
    → All (Fits top) s.db.delivery_attempts
    → find_row (same_id j) s.db.delivery_attempts ≡ some r
    → Runs top s t
    → (r' : DeliveryAttemptRecord) × (find_row (same_id j) t.db.delivery_attempts ≡ some r')
      × Fits top r'
      × Outlives r r'
Runs-Outlives top j s t r h u fits found runs =
    let a =
      Runs-Alive top j r h runs
        (record { ids = u; fits = fits; now = r; there = found; lived = inl refl }) in
    (
      a.now,
      a.there,
      All-find_row _ (same_id j) t.db.delivery_attempts a.now a.fits a.there,
      a.lived,
    )
