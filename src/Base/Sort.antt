-- ===== src/Base/Sort.antt =====
-- ORDER BY: a list in the order of a test, equal items kept in place.
pub mod Sorted
pub mod Unique
use mathlib.Core.Path.{◌≡◌, refl}
use mathlib.Core.Bool.{Bool}
use mathlib.Core.List.{List, [], ◌∷◌}
use native.Mathlib.Omega.{arith}
use substy.Base.Tests.{if◌then◌else◌}
use substy.Base.Table.{count_where}
use substy.Base.Lists.{All}

module _ {ℓ} {A : Type ℓ} where
  -- `before x y`: x may stand before y.
  unfoldable pub insert_by : (A → A → Bool) → A → List A → List A
  insert_by before x [] = x ∷ []
  insert_by before x (y ∷ ys) =
      let rest = insert_by before x ys in if before x y then x ∷ y ∷ ys else y ∷ rest

  unfoldable pub sort_by : (A → A → Bool) → List A → List A
  unfolding insert_by
  sort_by before [] = []
  sort_by before (x ∷ xs) = insert_by before x (sort_by before xs)

  count_where-insert_by :
      (p : A → Bool) (before : A → A → Bool) (x : A) (xs : List A)
      → count_where p (insert_by before x xs) ≡ count_where p (x ∷ xs)
  unfolding insert_by
  count_where-insert_by p before x [] = refl
  count_where-insert_by p before x (y ∷ ys) = ground (arith, count_where-insert_by p before x ys)

  pub count_where-sort_by :
      (p : A → Bool) (before : A → A → Bool) (xs : List A)
      → count_where p (sort_by before xs) ≡ count_where p xs
  unfolding sort_by
  count_where-sort_by p before [] = refl
  count_where-sort_by p before (x ∷ xs) =
      ground (
        arith,
        count_where-insert_by p before x (sort_by before xs),
        count_where-sort_by p before xs,
      )

  All-insert_by {κ} :
      (P : A → Type κ) (before : A → A → Bool) (x : A) (xs : List A)
      → P x
      → All P xs
      → All P (insert_by before x xs)
  unfolding insert_by
  All-insert_by P before x [] h k = (h, tt)
  All-insert_by P before x (y ∷ ys) h k = ground (arith, All-insert_by P before x ys h k.1)

  pub All-sort_by {κ} :
      (P : A → Type κ) (before : A → A → Bool) (xs : List A) → All P xs → All P (sort_by before xs)
  unfolding sort_by
  All-sort_by P before [] h = tt
  All-sort_by P before (x ∷ xs) h =
      All-insert_by P before x (sort_by before xs) h.0 (All-sort_by P before xs h.1)
