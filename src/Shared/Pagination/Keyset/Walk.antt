-- ===== src/Shared/Pagination/Keyset/Walk.antt =====
-- Following the cursors of a listing from its first page to its last.
use tickethub_backend.Common.{
  ℕ, zero, suc, ◌≤◌, ◌<◌, ◌≡◌, refl, sym, ap, ◌∙◌, String, true, false, Option, none, some, arith,
  ltb, nat_eq,
}
use tickethub_backend.Common.{
  List, [], ◌∷◌, ◌++◌, map, length, length-append, take, filter, All, if◌then◌else◌, inl, inr,
  Bool-cases, ltb→lt,
}
use mathlib.Core.Path.{subst}
use mathlib.Core.List.{append_assoc}
use tickethub_backend.Common.Sorted.{Sorted, filter-Sorted_after}
use tickethub_backend.Shared.Pagination.Keyset.Cuts.{
  drop, IsCut, cut, take-take, take_short, length-take_more, length-map, take-map, last-map,
  map-append,
}
use tickethub_backend.Shared.Pagination.Keyset.Ordered.{newest_irrefl, newest_trans, filter_all}
use tickethub_backend.Platform.{Platform, IsLawful}
use tickethub_backend.Errors.{Result, ok, err}
use tickethub_backend.Shared.Pagination.{
  CursorData, CursorCodec, Page, build_page, encode_cursor, last, cursor_of,
}
use tickethub_backend.Shared.Pagination.Keyset.{Dates, Key, read_cursor, cursor_condition, newest}

abbrev joined : {A : Type 0} → List A → Option (List A) → Option (List A)
joined xs none = none
joined xs (some ys) = some (xs ++ ys)

-- What a client gets that follows the cursors while there is more: all items, or none if a page is
-- refused or the pages go on after a number of them.
abbrev pub walk :
    {A : Type 0} → (Option String → Result (Page A)) → ℕ → Option String → Option (List A)
walk fetch zero cursor = none
walk fetch (suc n) cursor = elim (fetch cursor) [
  | err e ↦ none
  | ok page ↦
      if page.has_more then joined page.items (walk fetch n page.cursor) else some page.items
]

walk_stop :
    {A : Type 0} (fetch : Option String → Result (Page A)) (n : ℕ) (cursor : Option String)
    (page : Page A)
    → fetch cursor ≡ ok page
    → page.has_more ≡ false
    → walk fetch (suc n) cursor ≡ some page.items
walk_stop fetch n cursor page h k = ground arith

walk_go :
    {A : Type 0} (fetch : Option String → Result (Page A)) (n : ℕ) (cursor : Option String)
    (page : Page A) (ys : List A)
    → fetch cursor ≡ ok page
    → page.has_more ≡ true
    → walk fetch n page.cursor ≡ some ys
    → walk fetch (suc n) cursor ≡ some (page.items ++ ys)
walk_go fetch n cursor page ys h k next = ground arith

module _ ⦃p : Platform⦄ (L : IsLawful p) {R A : Type 0} (created : R → ℕ) (id : R → String)
    (codec : CursorCodec) (dates : Dates) (key : A → CursorData) (show : R → A) (m : ℕ) where
  -- The rows that are left behind a cursor of the listing.
  abbrev pub rest_after : List R → Option Key → List R
  rest_after all k = filter (cursor_condition created id k) all

  abbrev pub page_after : List R → Option Key → Page A
  page_after all k = build_page codec key (map show (take (suc (suc m)) (rest_after all k))) (suc m)

  -- A page that is not the last: it shows the first items, and its cursor is that of the last.
  page_more :
      (all : List R) (k : Option Key) (c : IsCut m (rest_after all k))
      → suc m < length (rest_after all k)
      → ((page_after all k).items ≡ map show (take (suc m) (rest_after all k)))
        × ((page_after all k).has_more ≡ true)
        × ((page_after all k).cursor ≡ some (encode_cursor codec (key (show c.end_))))
  unfolding build_page cursor_of
  page_more all k c h =
      let fetched = map show (take (suc (suc m)) (rest_after all k)) in
      let long : ltb (suc m) (length fetched) ≡ true = ground (
        arith,
        length-map show (take (suc (suc m)) (rest_after all k)),
        length-take_more (suc m) (rest_after all k) h,
      ) in
      let shown : take (suc m) fetched ≡ map show (take (suc m) (rest_after all k)) =
        take-map show (suc m) (take (suc (suc m)) (rest_after all k))
        ∙ ap (map show) (take-take (suc m) (rest_after all k)) in
      let final : last (take (suc m) fetched) ≡ some (show c.end_) =
        ap last shown ∙ last-map show (take (suc m) (rest_after all k)) c.end_ c.last_is in
      (rw long shown, long, rw long (ap (cursor_of codec key) final))

  page_end :
      (all : List R) (k : Option Key)
      → length (rest_after all k) ≤ suc m
      → ((page_after all k).items ≡ map show (rest_after all k))
        × ((page_after all k).has_more ≡ false)
  unfolding build_page
  page_end all k h =
      let fetched = map show (take (suc (suc m)) (rest_after all k)) in
      let whole : fetched ≡ map show (rest_after all k) =
        ap (map show) (take_short (suc m) (rest_after all k) h) in
      let short : ltb (suc m) (length fetched) ≡ false =
        ground (arith, ap length whole, length-map show (rest_after all k)) in
      (rw short whole, short)

  abbrev pub IsRead : R → Type 0
  IsRead r =
      read_cursor codec dates (some (encode_cursor codec (key (show r))))
      ≡ ok (some (created r, id r))

  All-middle : (xs : List R) (c : R) (ys : List R) → All IsRead (xs ++ c ∷ ys) → IsRead c
  All-middle [] c ys (h, _) = h
  All-middle (x ∷ xs) c ys (_, h) = All-middle xs c ys h

  -- What a walk needs of the pages: each is the listing's part behind its cursor, and the cursor of
  -- an item is read back as that item's key.
  pub record IsPaged (all : List R) (fetch : Option String → Result (Page A)) : Type 0 where
    pub fetch_page :
        (cursor : Option String) (k : Option Key)
        → read_cursor codec dates cursor ≡ ok k
        → fetch cursor ≡ ok (page_after all k)
    pub read_keys : All IsRead all

  walk_from :
      (all : List R) (fetch : Option String → Result (Page A))
      → Sorted (newest created id) all
      → IsPaged all fetch
      → (n : ℕ) (cursor : Option String) (k : Option Key) (done : List R)
      → read_cursor codec dates cursor ≡ ok k
      → all ≡ done ++ rest_after all k
      → length (rest_after all k) < n
      → walk fetch n cursor ≡ some (map show (rest_after all k))
  walk_from all fetch sorted paged zero cursor k done read split h = absurd (omega (arith, h))
  walk_from all fetch sorted paged (suc n) cursor k done read split h =
      let rest = rest_after all k in
      elim (Bool-cases (ltb (suc m) (length rest))) [
        | inr short ↦
            let (items, final) = page_end all k (ground (arith, short)) in
            walk_stop fetch n cursor (page_after all k) (paged.fetch_page cursor k read) final
            ∙ ap (λ xs. some xs) items
        | inl long ↦
            let more : suc m < length rest = ltb→lt (suc m) (length rest) long in
            let c = cut m rest more in
            let (items, goes_on, next) = page_more all k c more in
            let k' : Key = (created c.end_, id c.end_) in
            let whole : all ≡ (done ++ c.front) ++ c.end_ ∷ drop (suc m) rest =
              split
              ∙ ap (λ xs. done ++ xs) c.whole
              ∙ sym (append_assoc done c.front (c.end_ ∷ drop (suc m) rest)) in
            let behind : rest_after all (some k') ≡ drop (suc m) rest =
              ap (filter (newest created id c.end_)) whole
              ∙ filter-Sorted_after (newest created id) (newest_trans L created id)
                  (newest_irrefl L created id) (done ++ c.front) c.end_ (drop (suc m) rest)
                  (subst (Sorted (newest created id)) whole sorted) in
            let split' : all ≡ ((done ++ c.front) ++ c.end_ ∷ []) ++ rest_after all (some k') =
              whole
              ∙ sym (append_assoc (done ++ c.front) (c.end_ ∷ []) (drop (suc m) rest))
              ∙ ap (λ ys. ((done ++ c.front) ++ c.end_ ∷ []) ++ ys) (sym behind) in
            let again : walk fetch n (some (encode_cursor codec (key (show c.end_))))
                ≡ some (map show (rest_after all (some k'))) =
              walk_from all fetch sorted paged n (some (encode_cursor codec (key (show c.end_))))
                (some k') ((done ++ c.front) ++ c.end_ ∷ [])
                (All-middle (done ++ c.front) c.end_ (drop (suc m) rest)
                  (subst (All IsRead) whole paged.read_keys))
                split'
                (omega (
                  arith,
                  h,
                  ap length behind,
                  ap length c.whole,
                  length-append c.front (c.end_ ∷ drop (suc m) rest),
                )) in
            let glue : (page_after all k).items ++ map show (rest_after all (some k'))
                ≡ map show rest =
              ap (λ xs. xs ++ map show (rest_after all (some k'))) (items ∙ ap (map show) c.page)
              ∙ ap (λ ys. map show (c.front ++ c.end_ ∷ []) ++ map show ys) behind
              ∙ sym (map-append show (c.front ++ c.end_ ∷ []) (drop (suc m) rest))
              ∙ ap (map show)
                  (append_assoc c.front (c.end_ ∷ []) (drop (suc m) rest) ∙ sym c.whole) in
            walk_go fetch n cursor (page_after all k) (map show (rest_after all (some k')))
              (paged.fetch_page cursor k read) goes_on (rw next again)
            ∙ ap (λ xs. some xs) glue
      ]

  -- A client that follows the cursors from the first page ends, and has then seen the whole listing,
  -- each item once and in its order.
  pub walk-listing :
      (all : List R) (fetch : Option String → Result (Page A))
      → Sorted (newest created id) all
      → IsPaged all fetch
      → (n : ℕ) → length all < n
      → walk fetch n none ≡ some (map show all)
  unfolding read_cursor
  walk-listing all fetch sorted paged n h =
      let whole : rest_after all none ≡ all = filter_all L created id all in
      walk_from all fetch sorted paged n none none [] refl (sym whole)
        (omega (arith, h, ap length whole))
      ∙ ap (λ xs. some (map show xs)) whole
