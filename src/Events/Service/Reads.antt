-- ===== src/Events/Service/Reads.antt =====
-- What `findById` reads after an event was changed or removed, and what a text search gives.
use tickethub_backend.Common.{
  ◌≤◌, zero, false, Bool-cases, inl, inr, ℕ, suc, ◌≡◌, refl, sym, ap, ◌∙◌, String, true, Option,
  none, some, ◌==◌, string_eq, arith, ltb,
}
use tickethub_backend.Common.{
  List, [], ◌∷◌, find, update, length, take, if◌then◌else◌, find-passes, find-update_at,
}
use mathlib.Core.Path.{subst}
use tickethub_backend.Platform.{Platform, IsLawful}
use tickethub_backend.Errors
use tickethub_backend.Errors.{Failure, Result, ok, err, Result-cases}
use tickethub_backend.World.{World}
use tickethub_backend.World.Rows.{EventRow}
use tickethub_backend.World.People.{Role}
use tickethub_backend.Shared.Cache.{Json}
use tickethub_backend.Shared.Cache
use tickethub_backend.Shared.Pagination.{CursorCodec, Page, default_page_size, last}
use tickethub_backend.Shared.Pagination.Keyset.{Dates, truthy}
use tickethub_backend.Venues.Repository.{or_else}
use tickethub_backend.Events.Repository
use tickethub_backend.Events.Repository.{
  EventDetail, EventQuery, is_event, detail, deleted, matching, ranked,
}
use tickethub_backend.Events.Service
use tickethub_backend.Events.Service.{
  UpdateEventInput, changes, changed, given_date, event_missing, cache_key, load, find_by_id,
  remove, search, page_of_events, raw_page, raw_cursor, to_cursor, property, no_created_at,
}
use tickethub_backend.Events.Service.Changes.{
  event_at, IsChange, UpdateOutcome, update-Outcome, RemoveOutcome, remove-Outcome,
}

-- The written fields are not those that an event is found by.
Keeps : (EventRow → EventRow) → Type 0
Keeps f = (id : String) (e : EventRow) → is_event id (f e) ≡ is_event id e

bind-Keeps :
    (r : Result (Option ℕ)) (g : Option ℕ → Result (EventRow → EventRow)) (f : EventRow → EventRow)
    → ((t : Option ℕ) → g t ≡ ok f → Keeps f)
    → Errors.◌>>=◌ r g ≡ ok f
    → Keeps f
bind-Keeps (ok t) g f h run = h t run
bind-Keeps (err e) g f h run = absurd cc

ok_path : {A : Type 0} (P : A → Type 0) (a b : A) → ok a ≡ ok b → P a → P b
ok_path P a b h x = subst (λ (r : Result _). when_ok P r) h x
  where
    when_ok : {A : Type 0} → (A → Type 0) → Result A → Type 0
    when_ok P (ok a) = P a
    when_ok P (err e) = Unit

changes-Keeps :
    (dates : Dates) (c : UpdateEventInput) (f : EventRow → EventRow)
    → changes dates c ≡ ok f
    → Keeps f
unfolding changes Keeps
changes-Keeps dates c f = bind-Keeps (given_date dates c.starts_at) _ f (λ from.
    bind-Keeps (given_date dates c.ends_at) _ f (λ to.
      bind-Keeps (given_date dates c.sales_start_at) _ f (λ sales_from.
        bind-Keeps (given_date dates c.sales_end_at) _ f (λ sales_to run.
          ok_path Keeps (changed c from to sales_from sales_to) f run (λ id e. refl)))))

picked :
    (id : String) (f : EventRow → EventRow) (row : EventRow)
    → is_event id row ≡ true
    → some (if row.id == id then f row else row) ≡ some (f row)
picked id f row h = ground arith

-- The page of a search that found nothing.
abbrev pub empty_page : Page EventDetail
empty_page = record { items = []; cursor = none; has_more = false; count = 0 }

-- A page of raw rows is empty, or there is none.
abbrev pub RawCases : List EventRow → Result (Page EventDetail) → Type 0
RawCases [] r = r ≡ ok empty_page
RawCases (e ∷ es) r = r ≡ err no_created_at

last-some : {A : Type 0} (x : A) (xs : List A) → (y : A) × (last (x ∷ xs) ≡ some y)
last-some x [] = (x, refl)
last-some x (y ∷ ys) = last-some y ys

-- A raw row has no property `createdAt`.
raw_cursor_none :
    (codec : CursorCodec) (dates : Dates) (e : EventRow)
    → raw_cursor codec dates (some e) ≡ err no_created_at
unfolding raw_cursor to_cursor property string_eq
raw_cursor_none codec dates e = refl

raw_cursor-last :
    (codec : CursorCodec) (dates : Dates) (e : EventRow) (es : List EventRow)
    → raw_cursor codec dates (last (e ∷ es)) ≡ err no_created_at
raw_cursor-last codec dates e es =
    let (y, is) = last-some e es in rw is (raw_cursor_none codec dates y)

raw_page_empty :
    (codec : CursorCodec) (dates : Dates) (limit : ℕ)
    → raw_page codec dates [] limit ≡ ok empty_page
unfolding raw_page raw_cursor
raw_page_empty codec dates limit = ground arith

raw_page-RawCases :
    (codec : CursorCodec) (dates : Dates) (rows : List EventRow) (limit : ℕ)
    → 1 ≤ limit
    → RawCases rows (raw_page codec dates rows limit)
unfolding raw_page
raw_page-RawCases codec dates [] limit h = raw_page_empty codec dates limit
raw_page-RawCases codec dates (e ∷ es) zero h = absurd (omega (arith, h))
raw_page-RawCases codec dates (e ∷ es) (suc n) h =
    elim (Bool-cases (ltb (suc n) (length (e ∷ es)))) [
      | inl more ↦ rw (more, raw_cursor-last codec dates e (take n es)) refl
      | inr all_ ↦ rw (all_, raw_cursor-last codec dates e es) refl
    ]

module _ ⦃p : Platform⦄ (L : IsLawful p) (dates : Dates) ⦃j : Json EventDetail⦄ where
  deleted_absent :
      (id : String) (t : ℕ) (xs : List EventRow)
      → find (is_event id) (update (λ (e : EventRow). e.id == id) (deleted t) xs) ≡ none
  deleted_absent id t [] = refl
  deleted_absent id t (x ∷ xs) = ground (arith, deleted_absent id t xs)

  -- With nothing in the cache, `findById` asks the table.
  find_uncached :
      (id : String) (w w' : World)
      → w'.redis ≡ p.redis_del (cache_key id) w.redis
      → event_at L dates id w' ≡ none
      → (find_by_id dates id w').0 ≡ err (event_missing id)
  unfolding find_by_id load Repository.find_by_id Cache.get_or_set Cache.get Cache.redis_get
  find_uncached id w w' cold gone = ground (
    arith,
    L.redis_get-del (p.clock w'.readings) (cache_key id) w.redis,
    L.find_first-rows (is_event id) w'.events,
  )

  find_fresh :
      (id : String) (w w' : World) (row : EventRow)
      → w'.redis ≡ p.redis_del (cache_key id) w.redis
      → event_at L dates id w' ≡ some row
      → (find_by_id dates id w').0 ≡ ok (detail w' row)
  unfolding find_by_id load Repository.find_by_id Cache.get_or_set Cache.get Cache.redis_get
  find_fresh id w w' row cold there = ground (
    arith,
    L.redis_get-del (p.clock w'.readings) (cache_key id) w.redis,
    L.find_first-rows (is_event id) w'.events,
  )

  -- After a removal, `findById` says that the event is missing, whatever the cache held before.
  pub find-remove :
      (id user_id : String) (role : Role) (w w' : World)
      → remove dates id user_id role w ≡ (ok tt, w')
      → (find_by_id dates id w').0 ≡ err (event_missing id)
  find-remove id user_id role w w' run =
      let h : IsChange L dates id user_id role (deleted (p.clock w.readings)) w w' =
        subst (RemoveOutcome L dates id user_id role w) run
          (remove-Outcome L dates id user_id role w) in
      find_uncached id w w' h.uncached (
        ap (find (is_event id)) h.rows_after
        ∙ deleted_absent id (p.clock w.readings) (p.rows w.events))

  -- After an update, `findById` gives the event with the new values, whatever the cache held before.
  pub find-update :
      (id user_id : String) (role : Role) (input : UpdateEventInput) (w : World) (r : EventRow)
      (w' : World)
      → Service.update dates id user_id role input w ≡ (ok r, w')
      → (f : EventRow → EventRow) × (row : EventRow) × (changes dates input ≡ ok f)
        × (event_at L dates id w ≡ some row)
        × ((find_by_id dates id w').0 ≡ ok (detail w' (f row)))
  unfolding Keeps
  find-update id user_id role input w r w' run =
      let (f, h, good, _, written) =
        subst (UpdateOutcome L dates id user_id role input w) run
          (update-Outcome L dates id user_id role input w) in
      let row = h.row in
      let kept =
        find-update_at (is_event id) (λ (e : EventRow). e.id == id) f (p.rows w.events) {x = row}
          (changes-Keeps dates input f good id) h.found in
      let named = find-passes (is_event id) (p.rows w.events) {x = row} h.found in
      let there : event_at L dates id w' ≡ some (f row) =
        ap (find (is_event id)) h.rows_after ∙ kept ∙ picked id f row named in
      (f, row, good, h.found, find_fresh id w w' (f row) h.uncached there)

  search_raw :
      (codec : CursorCodec) (query : EventQuery) (text : String) (w : World)
      → truthy query.q ≡ some text
      → (search dates codec query w).0
        ≡ raw_page codec dates
            (p.find_page
              (matching text query w)
              (ranked text)
              (suc (or_else query.limit default_page_size))
              w.events)
            (or_else query.limit default_page_size)
  unfolding search Repository.find_many Repository.by_text Repository.search_with_full_text
      page_of_events
  search_raw codec query text w asked = ground arith

  -- With a limit of at least 1, a search by text that finds nothing gives an empty page, and one
  -- that finds an event throws, since the raw rows have no `createdAt`: it never shows an event.
  pub search_by_text :
      (codec : CursorCodec) (query : EventQuery) (text : String) (w : World)
      → truthy query.q ≡ some text
      → 1 ≤ or_else query.limit default_page_size
      → RawCases
          (p.find_page
            (matching text query w)
            (ranked text)
            (suc (or_else query.limit default_page_size))
            w.events)
          (search dates codec query w).0
  search_by_text codec query text w asked positive =
      let found =
        p.find_page (matching text query w) (ranked text)
          (suc (or_else query.limit default_page_size)) w.events in
      subst (RawCases found) (sym (search_raw codec query text w asked))
        (raw_page-RawCases codec dates found (or_else query.limit default_page_size) positive)
