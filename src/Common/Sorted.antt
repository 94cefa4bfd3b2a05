-- ===== src/Common/Sorted.antt =====
-- Sorting by a strict order, and what follows an element of a sorted list.
use mathlib.Core.Path.{◌≡◌, refl}
use mathlib.Core.Bool.{Bool, true, false, ◌||◌}
use mathlib.Core.Logic.{inl, inr}
use mathlib.Core.List.{List, [], ◌∷◌, ◌++◌}
use native.Mathlib.Omega.{arith}
use tickethub_backend.Common.Tests.{if◌then◌else◌, Bool-cases}
use tickethub_backend.Common.Lists.{All, filter, count, length}

module _ {A : Type 0} (before : A → A → Bool) where
  abbrev pub insert : A → List A → List A
  insert x [] = x ∷ []
  insert x (y ∷ ys) = let rest = insert x ys in if before x y then x ∷ y ∷ ys else y ∷ rest

  abbrev pub sort : List A → List A
  sort [] = []
  sort (x ∷ xs) = insert x (sort xs)

  -- Each element comes before all that follow it.
  abbrev pub Sorted : List A → Type 0
  Sorted [] = Unit
  Sorted (x ∷ xs) = All (λ y. before x y ≡ true) xs × Sorted xs

  -- Any two elements at different places can be told apart by the order.
  abbrev pub Comparable : List A → Type 0
  Comparable [] = Unit
  Comparable (x ∷ xs) = All (λ y. (before x y || before y x) ≡ true) xs × Comparable xs

  pub count-sort : (q : A → Bool) (xs : List A) → count q (sort xs) ≡ count q xs
  count-sort q [] = refl
  count-sort q (x ∷ xs) = omega (arith, count-insert q x (sort xs), count-sort q xs)
    where
      count-insert : (q : A → Bool) (x : A) (ys : List A) → count q (insert x ys) ≡ count q (x ∷ ys)
      count-insert q x [] = refl
      count-insert q x (y ∷ ys) = ground (arith, count-insert q x ys)

  pub length-sort : (xs : List A) → length (sort xs) ≡ length xs
  length-sort [] = refl
  length-sort (x ∷ xs) = omega (arith, length-insert x (sort xs), length-sort xs)
    where
      length-insert : (x : A) (ys : List A) → length (insert x ys) ≡ length (x ∷ ys)
      length-insert x [] = refl
      length-insert x (y ∷ ys) = ground (arith, length-insert x ys)

  All-insert : (P : A → Type 0) (x : A) (ys : List A) → P x → All P ys → All P (insert x ys)
  All-insert P x [] px h = (px, tt)
  All-insert P x (y ∷ ys) px (py, h) = elim (Bool-cases (before x y)) [
    | inl lt ↦ rw lt (px, (py, h))
    | inr ge ↦ rw ge (py, All-insert P x ys px h)
  ]

  pub All-sort : (P : A → Type 0) (xs : List A) → All P xs → All P (sort xs)
  All-sort P [] h = tt
  All-sort P (x ∷ xs) (px, h) = All-insert P x (sort xs) px (All-sort P xs h)

  module _ (trans : (x y z : A) → before x y ≡ true → before y z ≡ true → before x z ≡ true) where
    All-trans :
        (x y : A) (ys : List A)
        → before x y ≡ true
        → All (λ z. before y z ≡ true) ys
        → All (λ z. before x z ≡ true) ys
    All-trans x y [] h k = tt
    All-trans x y (z ∷ zs) h (k, ks) = (trans x y z h k, All-trans x y zs h ks)

    insert-Sorted :
        (x : A) (ys : List A)
        → All (λ y. (before x y || before y x) ≡ true) ys
        → Sorted ys
        → Sorted (insert x ys)
    insert-Sorted x [] c s = (tt, tt)
    insert-Sorted x (y ∷ ys) (cy, c) (ay, s) = elim (Bool-cases (before x y)) [
      | inl lt ↦ rw lt ((lt, All-trans x y ys lt ay), (ay, s))
      | inr ge ↦
          rw ge (All-insert (λ z. before y z ≡ true) x ys (ground arith) ay, insert-Sorted x ys c s)
    ]

    pub sort-Sorted : (xs : List A) → Comparable xs → Sorted (sort xs)
    sort-Sorted [] h = tt
    sort-Sorted (x ∷ xs) (c, h) =
        insert-Sorted x (sort xs) (All-sort (λ y. (before x y || before y x) ≡ true) xs c)
          (sort-Sorted xs h)

    -- What follows an element of a sorted list is what the order puts after it.
    module _ (irrefl : (x : A) → before x x ≡ false) where
      none_before :
          (c : A) (ys : List A) → All (λ y. before c y ≡ true) ys → filter (before c) ys ≡ ys
      none_before c [] h = refl
      none_before c (y ∷ ys) (hy, h) = ground (arith, none_before c ys h)

      pub filter-Sorted_after :
          (xs : List A) (c : A) (ys : List A)
          → Sorted (xs ++ c ∷ ys)
          → filter (before c) (xs ++ c ∷ ys) ≡ ys
      filter-Sorted_after [] c ys (h, s) = ground (arith, irrefl c, none_before c ys h)
      filter-Sorted_after (x ∷ xs) c ys (h, s) =
          let up : before x c ≡ true = here x xs c ys h in
          let back : before c x ≡ false = not_both x c up in
          ground (arith, filter-Sorted_after xs c ys s)
        where
          here :
              (x : A) (xs : List A) (c : A) (ys : List A)
              → All (λ y. before x y ≡ true) (xs ++ c ∷ ys)
              → before x c ≡ true
          here x [] c ys (h, _) = h
          here x (z ∷ zs) c ys (_, h) = here x zs c ys h

          not_both : (x c : A) → before x c ≡ true → before c x ≡ false
          not_both x c h = ground (arith, trans x c x h, irrefl x)

  pub All-filter : (P : A → Type 0) (q : A → Bool) (xs : List A) → All P xs → All P (filter q xs)
  All-filter P q [] h = tt
  All-filter P q (x ∷ xs) (px, h) = elim (Bool-cases (q x)) [
    | inl keep ↦ rw keep (px, All-filter P q xs h)
    | inr drop ↦ rw drop (All-filter P q xs h)
  ]

  pub filter-Sorted : (q : A → Bool) (xs : List A) → Sorted xs → Sorted (filter q xs)
  filter-Sorted q [] h = tt
  filter-Sorted q (x ∷ xs) (h, s) = elim (Bool-cases (q x)) [
    | inl keep ↦ rw keep (All-filter (λ y. before x y ≡ true) q xs h, filter-Sorted q xs s)
    | inr drop ↦ rw drop (filter-Sorted q xs s)
  ]
