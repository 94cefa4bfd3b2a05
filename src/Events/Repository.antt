-- ===== src/Events/Repository.antt =====
-- src/modules/events/events.repository.ts: the queries on the table of events.
use tickethub_backend.Common.{
  ℕ, suc, String, ◌<>◌, Bool, true, false, not, ◌&&◌, ◌||◌, Option, none, some, List, map, leb, ltb,
  ◌==◌, string_eq, nat_eq,
}
use tickethub_backend.Platform.{Platform}
use tickethub_backend.Errors
use tickethub_backend.Errors.{Failure, Result, ok, err, unique_violation}
use tickethub_backend.World.{
  World, Action, ◌>>=◌, ◌>>◌, pure, lift, gets, modify, or_throw, new_date, uuid,
}
use tickethub_backend.World.Rows.{EventRow, EventStatus, EventCategory, same_event}
use tickethub_backend.World.People.{VenueRow}
use tickethub_backend.Shared.Pagination.{CursorCodec, default_page_size}
use tickethub_backend.Shared.Pagination.Keyset.{
  Dates, read_cursor, cursor_condition, newest, truthy, date_of,
}
use tickethub_backend.Venues.Repository.{or_else, is_null, record_missing}

-- `venue: { select: { id, name, city } }`
pub record VenueBrief : Type 0 where
  pub id : String
  pub name : String
  pub city : String

-- A row with what `include` adds to it; a row refers to a venue that exists.
pub record EventDetail : Type 0 where
  pub row : EventRow
  pub venue : Option VenueBrief

-- Dates are texts, as the API has them.
pub record EventQuery : Type 0 where
  pub q : Option String
  pub city : Option String
  pub category : Option EventCategory
  pub date_from : Option String
  pub date_to : Option String
  pub status : Option EventStatus
  pub cursor : Option String
  pub limit : Option ℕ

-- What a listing gives: rows as the client types them, or the raw rows of a SQL query, whose columns
-- have the database's names (`created_at`, and no `createdAt`).
pub data Found : Type 0 where
  typed : List EventDetail → Found
  raw : List EventRow → Found

abbrev status_number : EventStatus → ℕ
status_number EventStatus.draft = 0
status_number EventStatus.published = 1
status_number EventStatus.cancelled = 2
status_number EventStatus.completed = 3
status_number EventStatus.sold_out = 4

abbrev category_number : EventCategory → ℕ
category_number EventCategory.concert = 0
category_number EventCategory.theater = 1
category_number EventCategory.sports = 2
category_number EventCategory.festival = 3
category_number EventCategory.comedy = 4
category_number EventCategory.conference = 5
category_number EventCategory.other = 6

-- A condition that is there only if the query asks for it.
abbrev pub has_status : Option EventStatus → EventRow → Bool
has_status none e = true
has_status (some s) e = status_number e.status == status_number s

abbrev pub has_category : Option EventCategory → EventRow → Bool
has_category none e = true
has_category (some c) e = category_number e.category == category_number c

-- `gte` and `lte`
abbrev pub not_before : Option ℕ → EventRow → Bool
not_before none e = true
not_before (some t) e = leb t e.starts_at

abbrev pub not_after : Option ℕ → EventRow → Bool
not_after none e = true
not_after (some t) e = leb e.starts_at t

-- `if (x) … new Date(x)`
read_date : Dates → Option String → Result (Option ℕ)
read_date dates none = ok none
read_date dates (some String.[]) = ok none
read_date dates (some (String.◌∷◌ c s)) =
    Errors.◌>>=◌ (date_of (dates.of_iso (String.◌∷◌ c s))) (λ t. ok (some t))

abbrev pub is_event : String → EventRow → Bool
is_event id e = e.id == id && is_null e.deleted_at

abbrev pub event_created : EventRow → ℕ
event_created e = e.created_at

abbrev pub event_id : EventRow → String
event_id e = e.id

-- `e.name || ' ' || e.description`
abbrev document : EventRow → String
document e = e.name <> " " <> e.description

module _ ⦃p : Platform⦄ where
  abbrev pub venue_of : World → EventRow → Option VenueRow
  venue_of w e = p.find_first (λ v. v.id == e.venue_id) w.venues

  abbrev pub brief : Option VenueRow → Option VenueBrief
  brief none = none
  brief (some v) = some (record { id = v.id; name = v.name; city = v.city })

  abbrev pub detail : World → EventRow → EventDetail
  detail w e = record { row = e; venue = brief (venue_of w e) }

  insert : EventRow → Action (Unit {0})
  insert row = do
    table ← gets (λ w. p.create same_event row w.events)
    table' ← or_throw table (unique_violation "events")
    modify (λ w. record w { events = table' })

  -- The fields that the input does not give are the database's.
  unfoldable pub create : (String → ℕ → EventRow) → Action EventRow
  unfolding insert new_date uuid
  create row_of = do id ← uuid; now ← new_date; insert (row_of id now); pure (row_of id now)

  unfoldable pub find_by_id : String → Action (Option EventDetail)
  find_by_id id w = (
    ok (elim (p.find_first (is_event id) w.events) [ none ↦ none | some e ↦ some (detail w e) ]),
    w,
  )

  -- `where.venue = { city: { contains } }`
  abbrev city_has : String → Option VenueRow → Bool
  city_has part none = false
  city_has part (some v) = p.contains v.city part

  abbrev pub in_city : World → Option String → EventRow → Bool
  in_city w none e = true
  in_city w (some part) e = city_has part (venue_of w e)

  -- The `where` of `findMany` without its cursor.
  abbrev pub listed : World → EventQuery → Option ℕ → Option ℕ → EventRow → Bool
  listed w q from to e =
      is_null e.deleted_at
      && (has_status q.status e
          && (has_category q.category e
              && (not_before from e && (not_after to e && in_city w (truthy q.city) e))))

  list_events : CursorCodec → Dates → EventQuery → Action (List EventDetail)
  unfolding read_date
  list_events codec dates q = do
    from ← lift (read_date dates q.date_from)
    to ← lift (read_date dates q.date_to)
    key ← lift (read_cursor codec dates q.cursor)
    gets (λ w. map (detail w) (
        p.find_page (λ e. listed w q from to e && cursor_condition event_created event_id key e)
          (newest event_created event_id) (suc (or_else q.limit default_page_size)) w.events))

  -- The text has the rank of its document, the newer of two with one rank comes first.
  abbrev pub ranked : String → EventRow → EventRow → Bool
  ranked text a b =
      p.ranks_above text (document a) (document b)
      || (not (p.ranks_above text (document b) (document a)) && ltb b.created_at a.created_at)

  abbrev has_venue : Option VenueRow → Bool
  has_venue none = false
  has_venue (some v) = true

  abbrev pub matching : String → EventQuery → World → EventRow → Bool
  matching text q w e =
      has_venue (venue_of w e)
      && (is_null e.deleted_at
          && (p.text_matches text (document e)
              && (has_status q.status e && has_category q.category e)))

  -- `searchWithFullText`
  unfoldable pub search_with_full_text : String → EventQuery → Action (List EventRow)
  search_with_full_text text q = gets (λ w.
      p.find_page (matching text q w) (ranked text) (suc (or_else q.limit default_page_size))
        w.events)

  -- `findMany`, by its text if there is one.
  unfoldable pub by_text : CursorCodec → Dates → EventQuery → Option String → Action Found
  unfolding list_events
  by_text codec dates q none = do rows ← list_events codec dates q; pure (typed rows)
  by_text codec dates q (some text) = do rows ← search_with_full_text text q; pure (raw rows)

  unfoldable pub find_many : CursorCodec → Dates → EventQuery → Action Found
  unfolding by_text
  find_many codec dates q = by_text codec dates q (truthy q.q)

  unfoldable pub update_row : String → (EventRow → EventRow) → Action EventRow
  update_row id f = do
    found ← gets (λ w. p.find_first (λ e. e.id == id) w.events)
    row ← or_throw found record_missing
    modify (λ w. record w { events = (p.update_many (λ e. e.id == id) f w.events).0 })
    pure (f row)

  -- `update`; the client refuses invalid dates.
  unfoldable pub update : String → Result (EventRow → EventRow) → Action EventRow
  unfolding update_row
  update id change = do f ← lift change; update_row id f

  abbrev pub deleted : ℕ → EventRow → EventRow
  deleted now e = record e { deleted_at = some now }

  unfoldable pub soft_delete : String → Action EventRow
  unfolding update_row new_date
  soft_delete id = do now ← new_date; update_row id (deleted now)
