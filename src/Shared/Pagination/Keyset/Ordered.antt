-- ===== src/Shared/Pagination/Keyset/Ordered.antt =====
-- A listing as a whole: the rows of a table that pass a test, newest first.
use tickethub_backend.Common.{
  ℕ, ◌≤◌, ◌≡◌, ◌≢◌, refl, ap, ◌∙◌, String, Bool, true, false, ◌&&◌, ◌||◌, Option, arith, nat_eq,
}
use tickethub_backend.Common.{List, [], ◌∷◌, length, take, filter, count, All}
use tickethub_backend.Common.Sorted.{
  sort, Sorted, Comparable, count-sort, length-sort, All-sort, All-filter, sort-Sorted,
  filter-Sorted,
}
use tickethub_backend.Platform.{Platform, IsLawful}
use tickethub_backend.Shared.Pagination.{}
use tickethub_backend.Shared.Pagination.Keyset.{Key, cursor_condition, newest}

module _ ⦃p : Platform⦄ (L : IsLawful p) {R : Type 0} (created : R → ℕ) (id : R → String) where
  pub newest_irrefl : (a : R) → newest created id a a ≡ false
  newest_irrefl a = ground (arith, L.text_lt_irrefl (id a))

  pub newest_trans :
      (a b c : R)
      → newest created id a b ≡ true
      → newest created id b c ≡ true
      → newest created id a c ≡ true
  newest_trans a b c h k = ground (arith, L.text_lt_trans (id c) (id b) (id a))

  -- No two rows have one identifier.
  abbrev pub DistinctIds : List R → Type 0
  DistinctIds [] = Unit
  DistinctIds (x ∷ xs) = All (λ y. id x ≢ id y) xs × DistinctIds xs

  distinct_comparable :
      (x : R) (xs : List R)
      → All (λ y. id x ≢ id y) xs
      → All (λ y. (newest created id x y || newest created id y x) ≡ true) xs
  distinct_comparable x [] h = tt
  distinct_comparable x (y ∷ ys) (h, hs) =
      (ground (arith, L.text_lt_total (id x) (id y) h), distinct_comparable x ys hs)

  distinct-Comparable : (xs : List R) → DistinctIds xs → Comparable (newest created id) xs
  distinct-Comparable [] h = tt
  distinct-Comparable (x ∷ xs) (h, hs) = (distinct_comparable x xs h, distinct-Comparable xs hs)

  -- The whole listing: the rows that pass a test, newest first.
  abbrev pub listing : (R → Bool) → List R → List R
  listing base rows = filter base (sort (newest created id) rows)

  pub listing-Sorted :
      (base : R → Bool) (rows : List R)
      → DistinctIds rows
      → Sorted (newest created id) (listing base rows)
  listing-Sorted base rows h =
      filter-Sorted (newest created id) base (sort (newest created id) rows)
        (sort-Sorted (newest created id) newest_trans rows (distinct-Comparable rows h))

  filter_and : (q r : R → Bool) (xs : List R) → filter (λ x. q x && r x) xs ≡ filter r (filter q xs)
  filter_and q r [] = refl
  filter_and q r (x ∷ xs) = ground (arith, filter_and q r xs)

  pub filter_all : (xs : List R) → filter (λ _. true) xs ≡ xs
  filter_all [] = refl
  filter_all (x ∷ xs) = ground (arith, filter_all xs)

  count_filter : (q r : R → Bool) (xs : List R) → count r (filter q xs) ≡ count (λ x. q x && r x) xs
  count_filter q r [] = refl
  count_filter q r (x ∷ xs) = ground (arith, count_filter q r xs)

  pub count-listing :
      (base q : R → Bool) (rows : List R)
      → count q (listing base rows) ≡ count (λ r. base r && q r) rows
  count-listing base q rows =
      count_filter base q (sort (newest created id) rows)
      ∙ count-sort (newest created id) (λ r. base r && q r) rows

  pub All-listing :
      (P : R → Type 0) (base : R → Bool) (rows : List R) → All P rows → All P (listing base rows)
  All-listing P base rows h =
      All-filter (newest created id) P base (sort (newest created id) rows)
        (All-sort (newest created id) P rows h)

  filter_le : (q : R → Bool) (xs : List R) → length (filter q xs) ≤ length xs
  filter_le q [] = omega arith
  filter_le q (x ∷ xs) = ground (arith, filter_le q xs)

  pub length-listing : (base : R → Bool) (rows : List R) → length (listing base rows) ≤ length rows
  length-listing base rows =
      omega (
        arith,
        filter_le base (sort (newest created id) rows),
        length-sort (newest created id) rows,
      )

  -- The query for a page is answered from the whole listing.
  pub find_page-listing :
      (base : R → Bool) (k : Option Key) (n : ℕ) (t : p.Table R)
      → DistinctIds (p.rows t)
      → p.find_page (λ r. base r && cursor_condition created id k r) (newest created id) n t
        ≡ take n (filter (cursor_condition created id k) (listing base (p.rows t)))
  find_page-listing base k n t h =
      L.find_page-rows _ (newest created id) n t (distinct-Comparable (p.rows t) h)
      ∙ ap (take n)
          (filter_and base (cursor_condition created id k) (sort (newest created id) (p.rows t)))
