-- ===== src/Delivery/Executor/Lifecycle.antt =====
-- The life of a delivery attempt over calls of the executor (services/delivery_executor.py).
use mathlib.Core.Path.{subst}
use substy.Base.{
  sym, ℕ, ◌+◌, ◌≡◌, ◌≢◌, ◌⊎◌, refl, inl, inr, ◌<◌, ◌≤◌, true, false, Option, none, some, List, All,
  find_row, is_some, arith, Option-cases, Bool-cases, ◌==◌, UniqueKeys, update_found, key-find_row,
  All-find_row, find_row-update,
}
use substy.Delivery.Model.{DeliveryAttemptRecord, Status, pending, sent, failed, dead, Db, Store}
use substy.Delivery.Attempts.{same_id, update_attempt}
use substy.Delivery.Executor.{Service, execute_send, is_final}
use substy.Delivery.Executor.Rows.{
  Becomes, delivered, delayed, died, retried, Touches, execute_send-Touches, execute_send-missing,
}

abbrev pub Rows : Type 0
Rows = List DeliveryAttemptRecord

-- The primary key.
abbrev pub UniqueIds : Rows → Type 0
UniqueIds = UniqueKeys (λ a. a.id)

abbrev pub StatusFits : ℕ → Status → ℕ → Option ℕ → Type 0
StatusFits top pending attempt_no next = (attempt_no ≡ 0) × (next ≡ none)
StatusFits top sent attempt_no next = (attempt_no < top) × (next ≡ none)
StatusFits top failed attempt_no next = (attempt_no < top) × (is_some next ≡ true)
StatusFits top dead attempt_no next = (attempt_no ≡ top) × (next ≡ none)

-- A row that fits its status: a pending one has made no attempt, a failed one has attempts left
-- and a retry time, a sent one has neither used its last attempt nor a retry time, and a dead one
-- has used them all.
abbrev pub Fits : ℕ → DeliveryAttemptRecord → Type 0
Fits top a = StatusFits top a.status a.attempt_no a.next_retry_at

Fits-open :
    (top : ℕ) (st : Status) (n : ℕ) (next : Option ℕ)
    → 1 ≤ top
    → StatusFits top st n next
    → st ≢ dead
    → n < top
Fits-open top pending n next h f o = omega arith
Fits-open top sent n next h f o = f.0
Fits-open top failed n next h f o = f.0
Fits-open top dead n next h f o = absurd (o refl)

module _ (svc : Service) where
  abbrev top : ℕ
  top = svc.settings.delivery_max_attempts

  open-ne-dead : (st : Status) → is_final svc st ≡ false → st ≢ dead
  open-ne-dead pending h e = cc
  open-ne-dead failed h e = cc
  open-ne-dead sent h e = cc
  open-ne-dead dead h e = cc

  Becomes-Fits :
      (a : DeliveryAttemptRecord) {b : DeliveryAttemptRecord}
      → 1 ≤ top
      → Fits top a
      → Becomes svc a b
      → Fits top b
  Becomes-Fits a h f (delivered o) =
      (Fits-open top a.status a.attempt_no a.next_retry_at h f (open-ne-dead a.status o), refl)
  Becomes-Fits a h f (delayed at o e) =
      (Fits-open top a.status a.attempt_no a.next_retry_at h f (open-ne-dead a.status o), refl)
  Becomes-Fits a h f (died r o m) =
      let below =
        Fits-open top a.status a.attempt_no a.next_retry_at h f (open-ne-dead a.status o) in
      (omega arith, refl)
  Becomes-Fits a h f (retried r q o m) = (m, refl)

-- How one row may change over a call: it stays, or it was open and keeps what it delivers to whom,
-- and its attempt number rises by one at most.
abbrev pub Evolves : Service → DeliveryAttemptRecord → DeliveryAttemptRecord → Type 0
Evolves svc a b =
    (b ≡ a)
    ⊎ ((is_final svc a.status ≡ false)
        × ((b.id ≡ a.id)
            × (b.notification_id ≡ a.notification_id)
            × (b.user_id ≡ a.user_id)
            × (b.channel ≡ a.channel)
            × (b.payload ≡ a.payload))
        × (a.attempt_no ≤ b.attempt_no)
        × (b.attempt_no ≤ a.attempt_no + 1)
        × (b.status ≢ pending))

module _ (svc : Service) where
  Becomes-Evolves :
      (a : DeliveryAttemptRecord) {b : DeliveryAttemptRecord} → Becomes svc a b → Evolves svc a b
  Becomes-Evolves a (delivered o) =
      inr (o, (refl, refl, refl, refl, refl), omega arith, omega arith, ground arith)
  Becomes-Evolves a (delayed at o e) =
      inr (o, (refl, refl, refl, refl, refl), omega arith, omega arith, ground arith)
  Becomes-Evolves a (died r o m) =
      inr (o, (refl, refl, refl, refl, refl), omega arith, omega arith, ground arith)
  Becomes-Evolves a (retried r q o m) =
      inr (o, (refl, refl, refl, refl, refl), omega arith, omega arith, ground arith)

  found_by_id :
      (attempt_id : ℕ) (s : Store) (a : DeliveryAttemptRecord)
      → find_row (same_id attempt_id) s.db.delivery_attempts ≡ some a
      → find_row (same_id a.id) s.db.delivery_attempts ≡ some a
  found_by_id attempt_id s a found =
      subst (λ i. find_row (same_id i) s.db.delivery_attempts ≡ some a)
        (sym (key-find_row (λ r. r.id) attempt_id s.db.delivery_attempts a found)) found

  after_Touches :
      (attempt_id : ℕ) (s : Store) (a : DeliveryAttemptRecord)
      → 1 ≤ svc.settings.delivery_max_attempts
      → UniqueIds s.db.delivery_attempts
      → All (Fits svc.settings.delivery_max_attempts) s.db.delivery_attempts
      → find_row (same_id attempt_id) s.db.delivery_attempts ≡ some a
      → {after : Db} → Touches svc a s.db after
      → All (Fits svc.settings.delivery_max_attempts) after.delivery_attempts
  after_Touches attempt_id s a h u fits found (inl same) = rw same fits
  after_Touches attempt_id s a h u fits found (inr (f, k, e, b)) = rw e (
      update_found (λ r. r.id) (Fits svc.settings.delivery_max_attempts) a.id f
        s.db.delivery_attempts a u (found_by_id attempt_id s a found)
        (Becomes-Fits svc a h
          (All-find_row _ (same_id attempt_id) s.db.delivery_attempts a fits found) b)
        fits)

  -- With at least one attempt allowed and unique ids, every call of the executor, whether it
  -- returns or raises, keeps each row fitted to its status: a pending row has made no attempt, a
  -- failed one has attempts left and a retry time, a sent one has made fewer than the maximum
  -- before, and a dead one exactly the maximum, the latter two with no retry time.
  pub execute_send-Fits :
      (attempt_id : ℕ) (s : Store)
      → 1 ≤ svc.settings.delivery_max_attempts
      → UniqueIds s.db.delivery_attempts
      → All (Fits svc.settings.delivery_max_attempts) s.db.delivery_attempts
      → All
          (Fits svc.settings.delivery_max_attempts)
          (execute_send svc attempt_id s).1.db.delivery_attempts
  execute_send-Fits attempt_id s h u fits =
      elim (Option-cases (find_row (same_id attempt_id) s.db.delivery_attempts)) [
        | inl missing ↦ rw (execute_send-missing svc attempt_id s missing) fits
        | inr (a, found) ↦
            after_Touches attempt_id s a h u fits found
              (execute_send-Touches svc a attempt_id s found)
      ]

  Touches-Evolves :
      (attempt_id j : ℕ) (s : Store) (a r : DeliveryAttemptRecord)
      → find_row (same_id attempt_id) s.db.delivery_attempts ≡ some a
      → find_row (same_id j) s.db.delivery_attempts ≡ some r
      → {after : Db} → Touches svc a s.db after
      → (r' : DeliveryAttemptRecord) × (find_row (same_id j) after.delivery_attempts ≡ some r')
        × Evolves svc r r'
        × ((j ≡ attempt_id) ⊎ (r' ≡ r))
  Touches-Evolves attempt_id j s a r found at_j (inl same) = (r, rw same at_j, inl refl, inr refl)
  Touches-Evolves attempt_id j s a r found at_j (inr (f, k, e, b)) = elim (Bool-cases (j == a.id)) [
    | inl hit ↦ (
      f a,
      rw e (changed hit),
      subst (λ x. Evolves svc x (f a)) (sym (same_row hit)) (Becomes-Evolves a b),
      inl (ground (arith, key-find_row (λ r. r.id) attempt_id s.db.delivery_attempts a found)),
    )
    | inr miss ↦ (
      r,
      rw e (rw (find_row-update (λ r. r.id) a.id j f s.db.delivery_attempts k, miss) at_j),
      inl refl,
      inr refl,
    )
  ]
    where
      same_row : (j == a.id) ≡ true → r ≡ a
      same_row hit = ground (arith, found_by_id attempt_id s a found)

      changed :
          (j == a.id) ≡ true
          → find_row (same_id j) (update_attempt a.id f s.db).delivery_attempts ≡ some (f a)
      changed hit =
          (rw (find_row-update (λ r. r.id) a.id j f s.db.delivery_attempts k, hit)
            (ground (arith, found_by_id attempt_id s a found)))

  -- Over a call each row that was there is still found under its key, and has evolved: it is
  -- unchanged, or it was neither sent nor dead, it keeps its notification, user, channel and
  -- payload, its attempt number grows by one at most, and it is no longer pending. Rows other than
  -- the attempt's are unchanged.
  pub execute_send-Evolves :
      (attempt_id j : ℕ) (s : Store) (r : DeliveryAttemptRecord)
      → find_row (same_id j) s.db.delivery_attempts ≡ some r
      → (r' : DeliveryAttemptRecord) × (find_row
            (same_id j)
            (execute_send svc attempt_id s).1.db.delivery_attempts
          ≡ some r')
        × Evolves svc r r'
        × ((j ≡ attempt_id) ⊎ (r' ≡ r))
  execute_send-Evolves attempt_id j s r at_j =
      elim (Option-cases (find_row (same_id attempt_id) s.db.delivery_attempts)) [
        | inl missing ↦
            (r, rw (execute_send-missing svc attempt_id s missing) at_j, inl refl, inr refl)
        | inr (a, found) ↦
            Touches-Evolves attempt_id j s a r found at_j
              (execute_send-Touches svc a attempt_id s found)
      ]
