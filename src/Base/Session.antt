-- ===== src/Base/Session.antt =====
-- A call of a service: it returns or raises, and leaves a new state in either case. The database
-- is reached through one PostgreSQL session: a statement that fails inside a transaction block
-- aborts the block, every later statement of the block is refused (SQLSTATE 25P02), and leaving
-- an aborted block rolls back. What lies outside the database is never rolled back.
use Prim.Native.String.{String}
use mathlib.Core.Path.{◌≡◌, refl}

-- What the services raise: the error classes of their core/exceptions.py and of the gateway's
-- core/errors.py with their message, an asyncpg.PostgresError by its SQLSTATE, Python's
-- RuntimeError, ValueError and KeyError, asyncpg's DataError for an argument that it cannot encode,
-- ZoneInfoNotFoundError, and what a client of another system raises.
pub data Error : Type 0 where
  unauthorized forbidden not_found conflict validation_error : String → Error
  authentication_error authorization_error rate_limited service_unavailable : String → Error
  upstream_error : String → Error
  postgres runtime_error value_error key_error data_error external : String → Error
  zone_not_found : Error
  -- no outcome of the program: a loop was cut off by the bound of the model
  out_of_fuel : Error

pub data Outcome (A : Type 0) : Type 0 where
  ok : A → Outcome A
  err : Error → Outcome A

-- Whether the session is in a transaction block, and whether that is aborted.
pub data Tx : Type 0 where
  no_tx in_tx aborted_tx : Tx

-- The tables, the session, and what lies outside the database.
pub record State (D W : Type 0) : Type 0 where
  pub db : D
  pub tx : Tx
  pub world : W

abbrev pub Action : Type 0 → Type 0 → Type 0
Action S A = S → Outcome A × S

module _ {S A : Type 0} where
  abbrev pub pure : A → Action S A
  pure a s = (ok a, s)

  abbrev pub raise : Error → Action S A
  raise e s = (err e, s)

  abbrev pub gets : (S → A) → Action S A
  gets f s = (ok (f s), s)

  abbrev pub lift : Outcome A → Action S A
  lift r s = (r, s)

infixl 5 ◌>>=◌ ◌>>◌
abbrev pub ◌>>=◌ : {S A B : Type 0} → Action S A → (A → Action S B) → Action S B
◌>>=◌ m f s = let (r, s') = m s in elim r [ ok a ↦ f a s' | err e ↦ (err e, s') ]

abbrev pub ◌>>◌ : {S A B : Type 0} → Action S A → Action S B → Action S B
m >> k = m >>= λ _. k

-- A failed statement aborts the block that it stands in.
abbrev pub after_failure : Tx → Tx
after_failure no_tx = no_tx
after_failure in_tx = aborted_tx
after_failure aborted_tx = aborted_tx

module _ {D W : Type 0} where
  abbrev pub modify_db : (D → D) → Action (State D W) (Unit {0})
  modify_db f s = (ok tt, record s { db = f s.db })

  abbrev pub modify_world : (W → W) → Action (State D W) (Unit {0})
  modify_world f s = (ok tt, record s { world = f s.world })

module _ {D W A : Type 0} where
  -- An aborted block accepts no statement.
  abbrev pub statement : Action (State D W) A → Action (State D W) A
  statement m s = elim s.tx [ aborted_tx ↦ (err (postgres "25P02"), s) | _ ↦ m s ]

  -- A statement that the database refuses with this SQLSTATE.
  abbrev pub refuse : String → Action (State D W) A
  refuse sqlstate s = (err (postgres sqlstate), record s { tx = after_failure s.tx })

  -- Leaving the block: COMMIT, which an aborted block turns into ROLLBACK, or ROLLBACK on a raise.
  abbrev pub leave : D → Outcome A × State D W → Outcome A × State D W
  leave before (ok a, s) = (
    ok a,
    elim s.tx [ aborted_tx ↦ record s { db = before; tx = no_tx } | _ ↦ record s { tx = no_tx } ],
  )
  leave before (err e, s) = (err e, record s { db = before; tx = no_tx })

  -- `async with conn.transaction():`
  abbrev pub transaction : Action (State D W) A → Action (State D W) A
  transaction m s = leave s.db (m (record s { tx = in_tx }))

-- A chain whose first part returns goes on from there.
pub >>=-after :
    {S A B : Type 0} (m : Action S A) (f : A → Action S B) (s : S) (a : A)
    → (m s).0 ≡ ok a
    → (m >>= f) s ≡ f a (m s).1
>>=-after m f s a e = rw (e, ◌>>=◌) refl

-- A chain that returned: its first part did, and so did the rest from there.
pub >>=-ok :
    {S A B : Type 0} (m : Action S A) (f : A → Action S B) (s : S) {b : B} {t : S}
    → (m >>= f) s ≡ (ok b, t)
    → (a : A) × (s' : S) × (m s ≡ (ok a, s')) × (f a s' ≡ (ok b, t))
>>=-ok {S} {A} m f s {b} {t} h = split_on (m s) refl h
  where
    split_on :
        (r : Outcome A × S)
        → m s ≡ r
        → elim r.0 [ ok a ↦ f a r.1 | err e ↦ (err e, r.1) ] ≡ (ok b, t)
        → (a : A) × (s' : S) × (m s ≡ (ok a, s')) × (f a s' ≡ (ok b, t))
    split_on (ok a, s') e k = (a, s', e, k)
    split_on (err x, s') e k = cc

module _ {S A B C : Type 0} where
  pub >>=_assoc :
      (m : S → Outcome A × S) (f : A → S → Outcome B × S) (g : B → S → Outcome C × S) (s : S)
      → ((m >>= f) >>= g) s ≡ (m >>= λ a. f a >>= g) s
  >>=_assoc m f g s = by_result (m s)
    where
      by_result :
          (r : Outcome A × S)
          → (let (q, t) = elim r.0 as (λ _. Outcome B × S) [
            | ok a ↦ f a r.1
            | err e ↦ (err e, r.1)
          ] in
              elim q as (λ _. Outcome C × S) [ ok b ↦ g b t | err e ↦ (err e, t) ])
            ≡ elim r.0 as (λ _. Outcome C × S) [ ok a ↦ (f a >>= g) r.1 | err e ↦ (err e, r.1) ]
      by_result (ok a, t) = refl
      by_result (err e, t) = refl

module _ {S A B : Type 0} where
  pub >>=_cong :
      (m : S → Outcome A × S) (f g : A → S → Outcome B × S) (s : S)
      → ((a : A) (t : S) → f a t ≡ g a t)
      → (m >>= f) s ≡ (m >>= g) s
  >>=_cong m f g s h = by_result (m s)
    where
      by_result :
          (r : Outcome A × S)
          → elim r.0 as (λ _. Outcome B × S) [ ok a ↦ f a r.1 | err e ↦ (err e, r.1) ]
            ≡ elim r.0 as (λ _. Outcome B × S) [ ok a ↦ g a r.1 | err e ↦ (err e, r.1) ]
      by_result (ok a, t) = h a t
      by_result (err e, t) = refl

module _ {S A : Type 0} where
  pub >>=_pure : (m : S → Outcome A × S) (s : S) → (m >>= pure) s ≡ m s
  >>=_pure m s = by_result (m s)
    where
      by_result :
          (r : Outcome A × S)
          → elim r.0 as (λ _. Outcome A × S) [ ok a ↦ (ok a, r.1) | err e ↦ (err e, r.1) ] ≡ r
      by_result (ok a, t) = refl
      by_result (err e, t) = refl

module _ {D W A : Type 0} where
  -- A statement that returned was run.
  pub statement-ok :
      (m : State D W → Outcome A × State D W) (s : State D W) {a : A} {t : State D W}
      → statement m s ≡ (ok a, t)
      → m s ≡ (ok a, t)
  statement-ok m s {a} {t} h = by_session s.tx h
    where
      by_session :
          (x : Tx)
          → elim x as (λ _. Outcome A × State D W) [
            | aborted_tx ↦ (err (postgres "25P02"), s)
            | _ ↦ m s
          ]
            ≡ (ok a, t)
          → m s ≡ (ok a, t)
      by_session no_tx k = k
      by_session in_tx k = k
      by_session aborted_tx k = cc

module _ {S A : Type 0} where
  pub answer_of :
      {a b : A} {s t : S} → ◌≡◌ {A = Outcome A × S} (ok a, s) (ok b, t) → (a ≡ b) × (s ≡ t)
  answer_of h = (cc, cc)
