-- ===== src/Base/Sort/Sorted.antt =====
-- Lists in strict order: sorting gives them, a condition may be tested before or after, and what
-- follows an item of such a list is what comes behind it.
use Prim.Native.Nat.{ℕ, zero, suc, ◌-◌, ◌≤◌}
use mathlib.Core.Path.{◌≡◌, refl, ◌∙◌, sym, ap, subst}
use mathlib.Core.Bool.{Bool, true, false, ◌&&◌}
use mathlib.Core.Logic.{inl, inr}
use mathlib.Core.Option.{some}
use mathlib.Core.List.{List, [], ◌∷◌, ◌++◌}
use native.Mathlib.Omega.{arith}
use substy.Base.Tests.{if◌then◌else◌, Bool-cases}
use substy.Base.Table.{rows_where, All-rows_where}
use substy.Base.Lists.{All, All-mono, All-take, All-last_of, last_of, length, take}
use substy.Base.Sort.{insert_by, sort_by, All-insert_by, All-sort_by}

module _ {ℓ} {A : Type ℓ} where
  abbrev pub drop : ℕ → List A → List A
  drop zero xs = xs
  drop (suc n) [] = []
  drop (suc n) (x ∷ xs) = drop n xs

  pub take-append-drop : (n : ℕ) (xs : List A) → take n xs ++ drop n xs ≡ xs
  take-append-drop zero xs = refl
  take-append-drop (suc n) [] = refl
  take-append-drop (suc n) (x ∷ xs) = ap (λ (l : List A). x ∷ l) (take-append-drop n xs)

  pub take_all : (n : ℕ) (xs : List A) → length xs ≤ n → take n xs ≡ xs
  take_all zero [] h = refl
  take_all (suc n) [] h = refl
  take_all zero (x ∷ xs) h = absurd (omega arith)
  take_all (suc n) (x ∷ xs) h = ap (λ (l : List A). x ∷ l) (take_all n xs (omega arith))

  pub length-drop : (n : ℕ) (xs : List A) → length (drop n xs) ≡ length xs - n
  length-drop zero xs = omega arith
  length-drop (suc n) [] = omega arith
  length-drop (suc n) (x ∷ xs) = omega (arith, length-drop n xs)

  -- Two conditions at once, or one after the other.
  pub rows_where-rows_where :
      (p q : A → Bool) (xs : List A)
      → rows_where q (rows_where p xs) ≡ rows_where (λ x. p x && q x) xs
  rows_where-rows_where p q [] = refl
  rows_where-rows_where p q (x ∷ xs) = ground (arith, rows_where-rows_where p q xs)

  -- The stronger condition alone.
  pub rows_where-stronger :
      (p q : A → Bool) (xs : List A)
      → ((a : A) → q a ≡ true → p a ≡ true)
      → rows_where q (rows_where p xs) ≡ rows_where q xs
  rows_where-stronger p q [] h = refl
  rows_where-stronger p q (x ∷ xs) h = ground (arith, rows_where-stronger p q xs h, h x)

  pub rows_where-All :
      (p : A → Bool) (xs : List A) → All (λ x. p x ≡ true) xs → rows_where p xs ≡ xs
  rows_where-All p [] h = refl
  rows_where-All p (x ∷ xs) h = ground (arith, rows_where-All p xs h.1)

  drop_none : (n : ℕ) (xs : List A) → take n xs ≡ [] → drop n xs ≡ xs
  drop_none zero xs h = refl
  drop_none (suc n) [] h = refl
  drop_none (suc n) (x ∷ xs) h = cc

  module _ (before : A → A → Bool) where
    abbrev pub IsSorted : List A → Type 0
    IsSorted [] = Unit
    IsSorted (x ∷ xs) = All (λ y. before x y ≡ true) xs × IsSorted xs

    -- Two items of the list are in one order or the other.
    abbrev pub AreComparable : List A → Type 0
    AreComparable [] = Unit
    AreComparable (x ∷ xs) = All (λ y. before x y ≡ false → before y x ≡ true) xs × AreComparable xs

    pub IsSorted-rows_where :
        (p : A → Bool) (xs : List A) → IsSorted xs → IsSorted (rows_where p xs)
    IsSorted-rows_where p [] h = tt
    IsSorted-rows_where p (x ∷ xs) h = elim (Bool-cases (p x)) [
      | inl hit ↦ rw hit (All-rows_where _ p xs h.0, IsSorted-rows_where p xs h.1)
      | inr miss ↦ rw miss (IsSorted-rows_where p xs h.1)
    ]

    pub AreComparable-rows_where :
        (p : A → Bool) (xs : List A) → AreComparable xs → AreComparable (rows_where p xs)
    AreComparable-rows_where p [] h = tt
    AreComparable-rows_where p (x ∷ xs) h = elim (Bool-cases (p x)) [
      | inl hit ↦ rw hit (All-rows_where _ p xs h.0, AreComparable-rows_where p xs h.1)
      | inr miss ↦ rw miss (AreComparable-rows_where p xs h.1)
    ]

    length-insert_by : (x : A) (xs : List A) → length (insert_by before x xs) ≡ suc (length xs)
    unfolding insert_by
    length-insert_by x [] = refl
    length-insert_by x (y ∷ ys) = ground (arith, length-insert_by x ys)

    pub length-sort_by : (xs : List A) → length (sort_by before xs) ≡ length xs
    unfolding sort_by
    length-sort_by [] = refl
    length-sort_by (x ∷ xs) =
        ground (arith, length-insert_by x (sort_by before xs), length-sort_by xs)

    insert_first :
        (x : A) (ys : List A) → All (λ y. before x y ≡ true) ys → insert_by before x ys ≡ x ∷ ys
    unfolding insert_by
    insert_first x [] h = refl
    insert_first x (y ∷ ys) h = ground (arith, h.0)

    module _ (trans : (x y z : A) → before x y ≡ true → before y z ≡ true → before x z ≡ true) where
      All-behind :
          (x y : A) (ys : List A)
          → before x y ≡ true
          → All (λ z. before y z ≡ true) ys
          → All (λ z. before x z ≡ true) ys
      All-behind x y ys h k = All-mono _ _ ys (λ z l. trans x y z h l) k

      insert_by-IsSorted :
          (x : A) (ys : List A)
          → All (λ y. before x y ≡ false → before y x ≡ true) ys
          → IsSorted ys
          → IsSorted (insert_by before x ys)
      unfolding insert_by
      insert_by-IsSorted x [] c h = (tt, tt)
      insert_by-IsSorted x (y ∷ ys) c h = elim (Bool-cases (before x y)) [
        | inl front ↦ rw front ((front, All-behind x y ys front h.0), h)
        | inr behind ↦ rw behind (
          All-insert_by (λ z. before y z ≡ true) before x ys (c.0 behind) h.0,
          insert_by-IsSorted x ys c.1 h.1,
        )
      ]

      pub sort_by-IsSorted : (xs : List A) → AreComparable xs → IsSorted (sort_by before xs)
      unfolding sort_by
      sort_by-IsSorted [] c = tt
      sort_by-IsSorted (x ∷ xs) c =
          insert_by-IsSorted x (sort_by before xs) (All-sort_by _ before xs c.0)
            (sort_by-IsSorted xs c.1)

      rows_where-insert_by :
          (q : A → Bool) (x : A) (ys : List A)
          → IsSorted ys
          → rows_where q (insert_by before x ys)
            ≡ (if q x then insert_by before x (rows_where q ys) else rows_where q ys)
      unfolding insert_by
      rows_where-insert_by q x [] h = ground arith
      rows_where-insert_by q x (y ∷ ys) h = elim (Bool-cases (before x y)) [
        | inl front ↦
            let first =
              insert_first x (rows_where q (y ∷ ys))
                (All-rows_where _ q (y ∷ ys) (front, All-behind x y ys front h.0)) in
            ground (arith, front, first)
        | inr behind ↦ ground (arith, behind, rows_where-insert_by q x ys h.1)
      ]

      -- Rows may be chosen before they are sorted or after.
      pub rows_where-sort_by :
          (q : A → Bool) (xs : List A)
          → AreComparable xs
          → rows_where q (sort_by before xs) ≡ sort_by before (rows_where q xs)
      unfolding sort_by
      rows_where-sort_by q [] c = refl
      rows_where-sort_by q (x ∷ xs) c = ground (
        arith,
        rows_where-insert_by q x (sort_by before xs) (sort_by-IsSorted xs c.1),
        rows_where-sort_by q xs c.1,
      )

      module _ (irrefl : (x : A) → before x x ≡ false) where
        none_before :
            (x : A) (xs : List A) (c : A)
            → All (λ y. before x y ≡ true) xs
            → before x c ≡ true
            → before c x ≡ false
        none_before x xs c h k = elim (Bool-cases (before c x)) [
          | inl back ↦ let loop = trans x c x k back in ground (arith, irrefl x)
          | inr right ↦ right
        ]

        end_or_more :
            (n : ℕ) (x : A) (xs : List A) (c : A) (page : List A)
            → take n xs ≡ page
            → All (λ y. before x y ≡ true) xs
            → (last_of page ≡ some c → rows_where (before c) xs ≡ drop n xs)
            → last_of (x ∷ page) ≡ some c
            → rows_where (before c) (x ∷ xs) ≡ drop n xs
        end_or_more n x xs c [] p h k e =
            let same : x ≡ c = ground arith in
            let rest : rows_where (before x) xs ≡ xs = rows_where-All (before x) xs h in
            let at_x : rows_where (before x) (x ∷ xs) ≡ drop n xs =
              rw (irrefl x) (rest ∙ sym (drop_none n xs p)) in
            subst (λ (z : A). rows_where (before z) (x ∷ xs) ≡ drop n xs) same at_x
        end_or_more n x xs c (y ∷ ys) p h k e =
            let ahead : before x c ≡ true =
              All-last_of (λ z. before x z ≡ true) (y ∷ ys) c
                (rw p at (All-take (λ z. before x z ≡ true) n xs h)) e in
            ground (arith, k e, none_before x xs c h ahead)

        -- The rows behind the last one of a page are those that are left.
        pub rows_where-last_of :
            (n : ℕ) (xs : List A) (c : A)
            → IsSorted xs
            → last_of (take n xs) ≡ some c
            → rows_where (before c) xs ≡ drop n xs
        rows_where-last_of zero xs c h e = cc
        rows_where-last_of (suc n) [] c h e = cc
        rows_where-last_of (suc n) (x ∷ xs) c h e =
            end_or_more n x xs c (take n xs) refl h.0 (λ l. rows_where-last_of n xs c h.1 l) e
