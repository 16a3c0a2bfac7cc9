-- ===== src/Base/Table.antt =====
-- A database table as the list of its rows, oldest first, and what the SQL statements do to it:
-- SELECT … WHERE, SELECT one row, UPDATE … WHERE, COUNT(*) … WHERE.
use Prim.Native.Nat.{ℕ, ◌+◌}
use mathlib.Core.Path.{◌≡◌, refl}
use mathlib.Core.Logic.{inl, inr}
use native.Mathlib.Omega.{arith}
use mathlib.Core.Bool.{Bool, true, false, ◌||◌}
use mathlib.Core.Option.{Option, none, some}
use mathlib.Core.List.{List, [], ◌∷◌, ◌++◌, map}
use substy.Base.Tests.{Bool-cases, if◌then◌else◌, is_some}
use substy.Base.Lists.{All}

module _ {ℓ} {A : Type ℓ} where
  -- the first row that meets the condition
  abbrev pub find_row : (A → Bool) → List A → Option A
  find_row p [] = none
  find_row p (x ∷ xs) = if p x then some x else find_row p xs

  abbrev pub has_row : (A → Bool) → List A → Bool
  has_row p xs = is_some (find_row p xs)

  abbrev pub rows_where : (A → Bool) → List A → List A
  rows_where p [] = []
  rows_where p (x ∷ xs) = let rest = rows_where p xs in if p x then x ∷ rest else rest

  abbrev pub update_where : (A → Bool) → (A → A) → List A → List A
  update_where p f [] = []
  update_where p f (x ∷ xs) = (if p x then f x else x) ∷ update_where p f xs

  abbrev pub count_where : (A → Bool) → List A → ℕ
  count_where p [] = 0
  count_where p (x ∷ xs) = (if p x then 1 else 0) + count_where p xs

  pub All-update_where {κ} :
      (P : A → Type κ) (p : A → Bool) (f : A → A) (xs : List A)
      → ((a : A) → p a ≡ true → P a → P (f a))
      → All P xs
      → All P (update_where p f xs)
  All-update_where P p f [] k h = tt
  All-update_where P p f (x ∷ xs) k h = (step (p x) refl, All-update_where P p f xs k h.1)
    where
      step : (b : Bool) → p x ≡ b → P (if b then f x else x)
      step true e = k x e h.0
      step false e = h.0

  pub All-find_row {κ} :
      (P : A → Type κ) (p : A → Bool) (xs : List A) (a : A)
      → All P xs
      → find_row p xs ≡ some a
      → P a
  All-find_row P p [] a h e = cc
  All-find_row P p (x ∷ xs) a h e = elim (Bool-cases (p x)) [
    | inl hit ↦ let same : x ≡ a = ground arith in rw (← same) h.0
    | inr miss ↦ All-find_row P p xs a h.1 (ground arith)
  ]

  pub count_where-append :
      (p : A → Bool) (xs ys : List A)
      → count_where p (xs ++ ys) ≡ count_where p xs + count_where p ys
  count_where-append p [] ys = omega arith
  count_where-append p (x ∷ xs) ys = ground (arith, count_where-append p xs ys)

  -- An update that keeps what is counted keeps the count.
  pub count_where-update :
      (q p : A → Bool) (f : A → A) (xs : List A)
      → ((a : A) → q (f a) ≡ q a)
      → count_where q (update_where p f xs) ≡ count_where q xs
  count_where-update q p f [] k = refl
  count_where-update q p f (x ∷ xs) k = ground (arith, k x, count_where-update q p f xs k)

  pub has_row-append :
      (p : A → Bool) (xs ys : List A) → has_row p (xs ++ ys) ≡ (has_row p xs || has_row p ys)
  has_row-append p [] ys = refl
  has_row-append p (x ∷ xs) ys = ground (arith, has_row-append p xs ys)

  pub has_row-update :
      (q p : A → Bool) (f : A → A) (xs : List A)
      → ((a : A) → q (f a) ≡ q a)
      → has_row q (update_where p f xs) ≡ has_row q xs
  has_row-update q p f [] k = refl
  has_row-update q p f (x ∷ xs) k = ground (arith, k x, has_row-update q p f xs k)

  pub All-rows_where {κ} :
      (P : A → Type κ) (p : A → Bool) (xs : List A) → All P xs → All P (rows_where p xs)
  All-rows_where P p [] h = tt
  All-rows_where P p (x ∷ xs) h = ground (arith, All-rows_where P p xs h.1)

  -- The rows chosen meet the condition.
  pub All-rows_where_self : (p : A → Bool) (xs : List A) → All (λ a. p a ≡ true) (rows_where p xs)
  All-rows_where_self p [] = tt
  All-rows_where_self p (x ∷ xs) = ground (arith, All-rows_where_self p xs)

module _ {ℓ κ} {A : Type ℓ} {B : Type κ} where
  pub count_where-map :
      (q : B → Bool) (g : A → B) (xs : List A)
      → count_where q (map g xs) ≡ count_where (λ x. q (g x)) xs
  count_where-map q g [] = refl
  count_where-map q g (x ∷ xs) = ground (arith, count_where-map q g xs)
