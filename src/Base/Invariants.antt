-- ===== src/Base/Invariants.antt =====
-- Invariants of the tables, through chains of calls and transactions.
use mathlib.Core.Path.{◌≡◌, refl}
use substy.Base.Session.{
  Error, Outcome, ok, err, Tx, no_tx, in_tx, aborted_tx, State, Action, statement, leave,
  transaction, ◌>>=◌,
}

module _ {ℓ} {D W : Type 0} (P : D → Type ℓ) where
  -- A call, returning or raising, leaves the tables with the property that they had.
  abbrev pub Keeps : {A : Type 0} → Action (State D W) A → Type ℓ
  Keeps m = (s : State D W) → P s.db → P (m s).1.db

  module _ {A B : Type 0} where
    pub >>=-Keeps :
        (m : Action (State D W) A) (f : A → Action (State D W) B)
        → Keeps m
        → ((a : A) → Keeps (f a))
        → Keeps (m >>= f)
    >>=-Keeps m f km kf s h = by_result (m s) (km s h)
      where
        by_result :
            (r : Outcome A × State D W)
            → P r.1.db
            → P
                (elim r.0 as (λ _. Outcome B × State D W) [
                  | ok a ↦ f a r.1
                  | err e ↦ (err e, r.1)
                ]).1.db
        by_result (ok a, t) k = kf a t k
        by_result (err e, t) k = k

  module _ {A : Type 0} where
    pub statement-Keeps : (m : Action (State D W) A) → Keeps m → Keeps (statement m)
    statement-Keeps m km s h = by_session s.tx
      where
        by_session :
            (x : Tx)
            → P
                (elim x as (λ _. Outcome A × State D W) [
                  | aborted_tx ↦ (err (Error.postgres "25P02"), s)
                  | _ ↦ m s
                ]).1.db
        by_session no_tx = km s h
        by_session in_tx = km s h
        by_session aborted_tx = h

    -- A property of the start and the end of a transaction carries over to leaving it.
    pub leave-Keeps :
        (before : D) (r : Outcome A × State D W) → P before → P r.1.db → P (leave before r).1.db
    leave-Keeps before (ok a, s) h k = by_session s.tx
      where
        by_session :
            (x : Tx)
            → P
                (elim x as (λ _. State D W) [
                  | aborted_tx ↦ record s { db = before; tx = no_tx }
                  | _ ↦ record s { tx = no_tx }
                ]).db
        by_session no_tx = k
        by_session in_tx = k
        by_session aborted_tx = h
    leave-Keeps before (err e, s) h k = h

    -- Only a block that returned is committed.
    pub leave-Keeps_ok :
        (before : D) (r : Outcome A × State D W)
        → P before
        → ((a : A) (s : State D W) → r ≡ (ok a, s) → P s.db)
        → P (leave before r).1.db
    leave-Keeps_ok before (ok a, s) h k = leave-Keeps before (ok a, s) h (k a s refl)
    leave-Keeps_ok before (err e, s) h k = h

    pub transaction-Keeps : (m : Action (State D W) A) → Keeps m → Keeps (transaction m)
    transaction-Keeps m km s h =
        leave-Keeps s.db (m (record s { tx = in_tx })) h (km (record s { tx = in_tx }) h)

module _ {ℓ} {S : Type 0} (Q : S → Type ℓ) where
  -- The same for a property of the whole state.
  abbrev pub Preserves : {A : Type 0} → Action S A → Type ℓ
  Preserves m = (s : S) → Q s → Q (m s).1

  module _ {A B : Type 0} where
    pub >>=-Preserves :
        (m : Action S A) (f : A → Action S B)
        → Preserves m
        → ((a : A) → Preserves (f a))
        → Preserves (m >>= f)
    >>=-Preserves m f km kf s h = by_result (m s) (km s h)
      where
        by_result :
            (r : Outcome A × S)
            → Q r.1
            → Q (elim r.0 as (λ _. Outcome B × S) [ ok a ↦ f a r.1 | err e ↦ (err e, r.1) ]).1
        by_result (ok a, t) k = kf a t k
        by_result (err e, t) k = k

module _ {ℓ} {A : Type 0} (P : A → Type ℓ) where
  -- Nothing is claimed where the call raised.
  abbrev pub HoldsFor : Outcome A → Type ℓ
  HoldsFor (ok a) = P a
  HoldsFor (err e) = Unit

module _ {ℓ} {S A : Type 0} (P : A → Type ℓ) where
  -- Whatever a call returns has the property.
  abbrev pub Answers : Action S A → Type ℓ
  Answers m = (s : S) → HoldsFor P (m s).0

  module _ {B : Type 0} where
    pub >>=-Answers :
        (m : Action S B) (f : B → Action S A) → ((b : B) → Answers (f b)) → Answers (m >>= f)
    >>=-Answers m f k s = by_result (m s)
      where
        by_result :
            (r : Outcome B × S)
            → HoldsFor P
                (elim r.0 as (λ _. Outcome A × S) [ ok b ↦ f b r.1 | err e ↦ (err e, r.1) ]).0
        by_result (ok b, t) = k b t
        by_result (err e, t) = tt
