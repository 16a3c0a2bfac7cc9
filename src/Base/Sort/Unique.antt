-- ===== src/Base/Sort/Unique.antt =====
-- What a query keeps of a table whose keys are unique.
use Prim.Native.Nat.{ℕ, zero, suc}
use mathlib.Core.Path.{sym}
use mathlib.Core.Logic.{◌≢◌, inl, inr}
use mathlib.Core.Bool.{Bool}
use mathlib.Core.List.{List, [], ◌∷◌}
use substy.Base.Tests.{Bool-cases}
use substy.Base.Table.{rows_where, All-rows_where}
use substy.Base.Lists.{All, All-take, take}
use substy.Base.Sort.{insert_by, sort_by, All-insert_by, All-sort_by}
use substy.Base.Keyed.{UniqueKeys}

module _ {ℓ} {A : Type ℓ} (key : A → ℕ) where
  pub UniqueKeys-rows_where :
      (p : A → Bool) (xs : List A) → UniqueKeys key xs → UniqueKeys key (rows_where p xs)
  UniqueKeys-rows_where p [] u = tt
  UniqueKeys-rows_where p (x ∷ xs) u = elim (Bool-cases (p x)) [
    | inl hit ↦ rw hit (All-rows_where _ p xs u.0, UniqueKeys-rows_where p xs u.1)
    | inr miss ↦ rw miss (UniqueKeys-rows_where p xs u.1)
  ]

  UniqueKeys-insert_by :
      (before : A → A → Bool) (x : A) (xs : List A)
      → All (λ y. key y ≢ key x) xs
      → UniqueKeys key xs
      → UniqueKeys key (insert_by before x xs)
  unfolding insert_by
  UniqueKeys-insert_by before x [] new u = (tt, tt)
  UniqueKeys-insert_by before x (y ∷ ys) new u = elim (Bool-cases (before x y)) [
    | inl first ↦ rw first (new, u)
    | inr later ↦ rw later (
      All-insert_by (λ z. key z ≢ key y) before x ys (λ e. new.0 (sym e)) u.0,
      UniqueKeys-insert_by before x ys new.1 u.1,
    )
  ]

  pub UniqueKeys-sort_by :
      (before : A → A → Bool) (xs : List A) → UniqueKeys key xs → UniqueKeys key (sort_by before xs)
  unfolding sort_by
  UniqueKeys-sort_by before [] u = tt
  UniqueKeys-sort_by before (x ∷ xs) u =
      UniqueKeys-insert_by before x (sort_by before xs) (All-sort_by _ before xs u.0)
        (UniqueKeys-sort_by before xs u.1)

  pub UniqueKeys-take : (n : ℕ) (xs : List A) → UniqueKeys key xs → UniqueKeys key (take n xs)
  UniqueKeys-take zero xs u = tt
  UniqueKeys-take (suc n) [] u = tt
  UniqueKeys-take (suc n) (x ∷ xs) u = (All-take _ n xs u.0, UniqueKeys-take n xs u.1)
