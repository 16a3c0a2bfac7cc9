-- ===== src/Base/Keyed.antt =====
-- Tables with a primary key: an UPDATE by key changes one row and no other.
use Prim.Native.Nat.{ℕ}
use mathlib.Core.Path.{◌≡◌, refl, sym}
use mathlib.Core.Logic.{◌≢◌, inl, inr}
use mathlib.Core.Bool.{Bool, true, false}
use mathlib.Core.Option
use mathlib.Core.Option.{Option, none, some}
use mathlib.Core.List.{List, [], ◌∷◌, ◌++◌}
use native.Mathlib.Omega.{arith}
use substy.Base.Tests.{◌==◌, if◌then◌else◌, Bool-cases}
use substy.Base.Lists.{All, All-append}
use substy.Base.Table.{find_row, has_row, update_where, rows_where, count_where}

module _ {ℓ} {A : Type ℓ} (key : A → ℕ) where
  abbrev pub with_key : ℕ → A → Bool
  with_key i x = key x == i

  -- No two rows have the same key.
  abbrev pub UniqueKeys : List A → Type 0
  UniqueKeys [] = Unit
  UniqueKeys (x ∷ xs) = All (λ y. key y ≢ key x) xs × UniqueKeys xs

  pub key-find_row : (i : ℕ) (xs : List A) (a : A) → find_row (with_key i) xs ≡ some a → key a ≡ i
  key-find_row i [] a e = cc
  key-find_row i (x ∷ xs) a e = ground (arith, key-find_row i xs a)

  update_absent :
      (i : ℕ) (f : A → A) (xs : List A)
      → All (λ y. key y ≢ i) xs
      → update_where (with_key i) f xs ≡ xs
  update_absent i f [] h = refl
  update_absent i f (x ∷ xs) h = ground (arith, update_absent i f xs h.1)

  pub update_found {κ} :
      (P : A → Type κ) (i : ℕ) (f : A → A) (xs : List A) (a : A)
      → UniqueKeys xs
      → find_row (with_key i) xs ≡ some a
      → P (f a)
      → All P xs
      → All P (update_where (with_key i) f xs)
  update_found P i f [] a u e p h = tt
  update_found P i f (x ∷ xs) a u e p h = elim (Bool-cases (key x == i)) [
    | inl hit ↦ rw (hit, head_hit hit, update_absent i f xs (rest_differs hit)) (p, h.1)
    | inr miss ↦ rw miss (h.0, update_found P i f xs a u.1 (ground arith) p h.1)
  ]
    where
      head_hit : (key x == i) ≡ true → x ≡ a
      head_hit hit = ground arith

      rest_differs : (key x == i) ≡ true → All (λ y. key y ≢ i) xs
      rest_differs hit = rw (← key_is hit) u.0
        where
          key_is : (key x == i) ≡ true → key x ≡ i
          key_is hit = ground arith

  -- The update seen by a lookup: it changes what is found under its own key only.
  pub find_row-update :
      (i j : ℕ) (f : A → A) (xs : List A)
      → ((a : A) → key (f a) ≡ key a)
      → find_row (with_key j) (update_where (with_key i) f xs)
        ≡ (if j == i then Option.map f (find_row (with_key j) xs) else find_row (with_key j) xs)
  find_row-update i j f [] k = ground arith
  find_row-update i j f (x ∷ xs) k = ground (arith, k x, find_row-update i j f xs k)

  pub All-has_row :
      (i : ℕ) (xs : List A) → has_row (with_key i) xs ≡ false → All (λ y. key y ≢ i) xs
  All-has_row i [] h = tt
  All-has_row i (x ∷ xs) h = (ground arith, All-has_row i xs (ground arith))

  -- A row with a new key may be added.
  pub UniqueKeys-append :
      (xs : List A) (a : A)
      → UniqueKeys xs
      → All (λ y. key y ≢ key a) xs
      → UniqueKeys (xs ++ a ∷ [])
  UniqueKeys-append [] a u h = (tt, tt)
  UniqueKeys-append (x ∷ xs) a u h =
      (All-append _ xs (a ∷ []) u.0 ((λ e. h.0 (sym e)), tt), UniqueKeys-append xs a u.1 h.1)

  -- An update that keeps the keys keeps them unique.
  All-key_update :
      (p : A → Bool) (f : A → A) (n : ℕ) (xs : List A)
      → ((a : A) → key (f a) ≡ key a)
      → All (λ y. key y ≢ n) xs
      → All (λ y. key y ≢ n) (update_where p f xs)
  All-key_update p f n [] k h = tt
  All-key_update p f n (x ∷ xs) k h = (head_differs, All-key_update p f n xs k h.1)
    where
      head_differs : key (if p x then f x else x) ≢ n
      head_differs = ground (arith, k x)

  pub UniqueKeys-update :
      (p : A → Bool) (f : A → A) (xs : List A)
      → ((a : A) → key (f a) ≡ key a)
      → UniqueKeys xs
      → UniqueKeys (update_where p f xs)
  UniqueKeys-update p f [] k u = tt
  UniqueKeys-update p f (x ∷ xs) k u =
      (rw key_same (All-key_update p f (key x) xs k u.0), UniqueKeys-update p f xs k u.1)
    where
      key_same : key (if p x then f x else x) ≡ key x
      key_same = ground (arith, k x)

  pub count_absent :
      (i : ℕ) (p : A → Bool) (xs : List A)
      → All (λ y. key y ≢ i) xs
      → count_where (with_key i) (rows_where p xs) ≡ 0
  count_absent i p [] h = refl
  count_absent i p (x ∷ xs) h = ground (arith, count_absent i p xs h.1)

  All-count_cons :
      (x : A) (p q : A → Bool) (xs ys : List A)
      → All (λ y. key y ≢ key x) ys
      → All (λ n. count_where (with_key (key n)) (rows_where p xs) ≡ (if q n then 1 else 0)) ys
      → All
          (λ n. count_where (with_key (key n)) (rows_where p (x ∷ xs)) ≡ (if q n then 1 else 0))
          ys
  All-count_cons x p q xs [] h k = tt
  All-count_cons x p q xs (y ∷ ys) h k = (head_count, All-count_cons x p q xs ys h.1 k.1)
    where
      head_count : count_where (with_key (key y)) (rows_where p (x ∷ xs)) ≡ (if q y then 1 else 0)
      head_count = ground (arith, h.0, k.0)

  -- With unique keys, a row's key is chosen once if the row is chosen, and never otherwise.
  pub count_chosen :
      (p : A → Bool) (xs : List A)
      → UniqueKeys xs
      → All (λ n. count_where (with_key (key n)) (rows_where p xs) ≡ (if p n then 1 else 0)) xs
  count_chosen p [] u = tt
  count_chosen p (x ∷ xs) u = (
    ground (arith, count_absent (key x) p xs u.0),
    All-count_cons x p p xs xs u.0 (count_chosen p xs u.1),
  )

  All-has_key_cons :
      (x : A) (xs ys : List A)
      → All (λ n. has_row (with_key (key n)) xs ≡ true) ys
      → All (λ n. has_row (with_key (key n)) (x ∷ xs) ≡ true) ys
  All-has_key_cons x xs [] h = tt
  All-has_key_cons x xs (y ∷ ys) h = (ground (arith, h.0), All-has_key_cons x xs ys h.1)

  -- Every row is found under its key.
  pub All-has_key : (xs : List A) → All (λ n. has_row (with_key (key n)) xs ≡ true) xs
  All-has_key [] = tt
  All-has_key (x ∷ xs) = (ground arith, All-has_key_cons x xs xs (All-has_key xs))
