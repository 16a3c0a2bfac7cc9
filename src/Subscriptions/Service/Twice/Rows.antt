-- ===== src/Subscriptions/Service/Twice/Rows.antt =====
-- The subscription of a user and topic among the rows, as it is added or switched on
-- (repositories/subscriptions.py).
use substy.Base.{
  ℕ, ◌≡◌, ◌≢◌, refl, inl, inr, Bool, true, false, Option, none, some, List, [], ◌∷◌, ◌++◌, arith,
  Bool-cases, find_row, has_row, update_where, All-find_row, UniqueKeys,
}
use substy.Subscriptions.Model.{SubscriptionRow, Env}
use substy.Subscriptions.Repository.{owned, same_pair, same_id, set_active}

abbrev pub Rows : Type 0
Rows = List SubscriptionRow

abbrev pub UniqueIds : Rows → Type 0
UniqueIds = UniqueKeys (λ (x : SubscriptionRow). x.id)

module _ (user_id topic_id : ℕ) where
  abbrev pub found_in : Rows → Option SubscriptionRow
  found_in rows = find_row (same_pair user_id topic_id) rows

  pub is_pair :
      (rows : Rows) (x : SubscriptionRow)
      → found_in rows ≡ some x
      → (x.user_id ≡ user_id) × (x.topic_id ≡ topic_id)
  is_pair [] x e = cc
  is_pair (y ∷ rows) x e = ground (arith, is_pair rows x)

  -- The row that is switched on is found by its id, and by user and topic as before.
  pub switched_by_id :
      (env : Env) (rows : Rows) (x : SubscriptionRow)
      → UniqueIds rows
      → found_in rows ≡ some x
      → find_row (owned x.id user_id) (update_where (owned x.id user_id) (set_active env true) rows)
        ≡ some (set_active env true x)
  switched_by_id env [] x u e = cc
  switched_by_id env (y ∷ rows) x u e = elim (Bool-cases (same_pair user_id topic_id y)) [
    | inl hit ↦ ground arith
    | inr miss ↦
        let later : found_in rows ≡ some x = ground arith in
        let differs =
          All-find_row (λ z. z.id ≢ y.id) (same_pair user_id topic_id) rows x u.0 later in
        ground (arith, differs, switched_by_id env rows x u.1 later)
  ]

  pub switched_by_pair :
      (env : Env) (rows : Rows) (x : SubscriptionRow)
      → found_in rows ≡ some x
      → found_in (update_where (owned x.id user_id) (set_active env true) rows)
        ≡ some (set_active env true x)
  switched_by_pair env [] x e = cc
  switched_by_pair env (y ∷ rows) x e = elim (Bool-cases (same_pair user_id topic_id y)) [
    | inl hit ↦ ground (arith, is_pair (y ∷ rows) x e)
    | inr miss ↦ ground (arith, switched_by_pair env rows x)
  ]

-- A new row behind rows that do not have its id, or its user and topic.
pub added :
    (p : SubscriptionRow → Bool) (rows : Rows) (x : SubscriptionRow)
    → find_row p rows ≡ none
    → p x ≡ true
    → find_row p (rows ++ x ∷ []) ≡ some x
added p [] x e h = ground arith
added p (y ∷ rows) x e h = ground (arith, added p rows x)

pub not_owned :
    (user_id i : ℕ) (rows : Rows)
    → has_row (same_id i) rows ≡ false
    → find_row (owned i user_id) rows ≡ none
not_owned user_id i [] h = refl
not_owned user_id i (y ∷ rows) h = ground (arith, not_owned user_id i rows)
