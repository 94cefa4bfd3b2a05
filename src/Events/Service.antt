-- ===== src/Events/Service.antt =====
-- src/modules/events/events.service.ts: who may change an event, the cached detail, listing and search.
pub mod Patch
pub mod Changes
pub mod Reads
use tickethub_backend.Common.{
  ℕ, String, ◌<>◌, Bool, true, false, not, ◌&&◌, Option, none, some, List, [], ◌∷◌, map, length,
  ltb, take, if◌then◌else◌, ◌==◌, string_eq,
}
use tickethub_backend.Platform.{Platform}
use tickethub_backend.Errors
use tickethub_backend.Errors.{
  Failure, Result, ok, err, not_found_error, forbidden_error, plain_error,
}
use tickethub_backend.World.{World, Action, ◌>>=◌, ◌>>◌, pure, lift, or_throw, throw_if}
use tickethub_backend.World.Rows.{EventRow, EventStatus, EventCategory}
use tickethub_backend.World.People.{Role, user, organizer, admin}
use tickethub_backend.Shared.Cache.{Json, get_or_set, del}
use tickethub_backend.Shared.Pagination.{
  CursorData, CursorCodec, Page, build_page, default_page_size, encode_cursor, last,
}
use tickethub_backend.Shared.Pagination.Keyset.{Dates, date_of}
use tickethub_backend.Venues.Repository.{or_else}
use tickethub_backend.Events.Repository
use tickethub_backend.Events.Repository.{EventDetail, EventQuery, Found, typed, raw}

pub record CreateEventInput : Type 0 where
  pub venue_id : String
  pub name : String
  pub description : String
  pub category : EventCategory
  pub starts_at : String
  pub ends_at : String
  pub sales_start_at : String
  pub sales_end_at : String
  pub poster_url : Option String

pub record UpdateEventInput : Type 0 where
  pub name : Option String
  pub description : Option String
  pub category : Option EventCategory
  pub status : Option EventStatus
  pub starts_at : Option String
  pub ends_at : Option String
  pub sales_start_at : Option String
  pub sales_end_at : Option String
  -- `null` takes the poster away.
  pub poster_url : Option (Option String)

-- CACHE_TTL.EVENT_DETAIL
abbrev pub detail_ttl : ℕ
detail_ttl = 300

abbrev pub cache_key : String → String
cache_key id = "event:" <> id

abbrev date : Dates → String → Result ℕ
date dates text = date_of (dates.of_iso text)

-- A date that is given is read.
given_date : Dates → Option String → Result (Option ℕ)
given_date dates none = ok none
given_date dates (some text) = Errors.◌>>=◌ (date dates text) (λ t. ok (some t))

-- The fields that an input gives, with their dates read.
abbrev changed : UpdateEventInput → (from to sales_from sales_to : Option ℕ) → EventRow → EventRow
changed c from to sales_from sales_to e = record e {
  name = or_else c.name e.name;
  description = or_else c.description e.description;
  category = or_else c.category e.category;
  status = or_else c.status e.status;
  starts_at = or_else from e.starts_at;
  ends_at = or_else to e.ends_at;
  sales_start_at = or_else sales_from e.sales_start_at;
  sales_end_at = or_else sales_to e.sales_end_at;
  poster_url = or_else c.poster_url e.poster_url;
}

-- The data of `update`, as what it does to a row.
unfoldable pub changes : Dates → UpdateEventInput → Result (EventRow → EventRow)
unfolding given_date
changes dates c =
    let bind =
      λ (r : Result (Option ℕ)) (f : Option ℕ → Result (EventRow → EventRow)). Errors.◌>>=◌ r f in
    bind (given_date dates c.starts_at) (λ from. bind (given_date dates c.ends_at) (λ to.
      bind (given_date dates c.sales_start_at) (λ sales_from.
        bind (given_date dates c.sales_end_at)
          (λ sales_to. ok (changed c from to sales_from sales_to)))))

-- `event.organizerId !== userId && userRole !== 'ADMIN'`
abbrev pub is_admin : Role → Bool
is_admin user = false
is_admin organizer = false
is_admin admin = true

abbrev pub may_not : EventDetail → String → Role → Bool
may_not e user_id role = not (e.row.organizer_id == user_id) && not (is_admin role)

abbrev pub event_missing : String → Failure
event_missing id = not_found_error "Event" (some id)

-- The items of a listing carry the row that they show.
abbrev pub event_key : Dates → EventDetail → CursorData
event_key dates e = record { id = e.row.id; created_at = dates.to_iso e.row.created_at }

-- The times among the properties of a raw row, under the names of the columns (schema.prisma maps
-- each field to its column).
abbrev pub raw_times : EventRow → List (String × ℕ)
raw_times e =
    ("starts_at", e.starts_at)
    ∷ ("ends_at", e.ends_at)
    ∷ ("sales_start_at", e.sales_start_at)
    ∷ ("sales_end_at", e.sales_end_at)
    ∷ ("created_at", e.created_at)
    ∷ []

-- A property of an object, if it has it.
unfoldable pub property : String → List (String × ℕ) → Option ℕ
property name [] = none
property name ((key, value) ∷ rest) =
    let found = property name rest in if key == name then some value else found

-- `createdAt.toISOString()` in `encodeCursor`, of a row that may have no `createdAt`.
abbrev no_created_at : Failure
no_created_at = plain_error "Cannot read properties of undefined (reading 'toISOString')"

unfoldable to_cursor : CursorCodec → Dates → (id : String) → Option ℕ → Result String
to_cursor codec dates id none = err no_created_at
to_cursor codec dates id (some t) =
    ok (encode_cursor codec (record { id = id; created_at = dates.to_iso t }))

-- `lastItem ? encodeCursor(lastItem.id, lastItem.createdAt) : null`
unfoldable raw_cursor : CursorCodec → Dates → Option EventRow → Result (Option String)
unfolding to_cursor property
raw_cursor codec dates none = ok none
raw_cursor codec dates (some e) =
    Errors.◌>>=◌ (to_cursor codec dates e.id (property "createdAt" (raw_times e)))
      (λ c. ok (some c))

-- `buildPaginatedResponse` on raw rows; of the venue that a raw row carries nothing is kept.
unfoldable pub raw_page : CursorCodec → Dates → List EventRow → ℕ → Result (Page EventDetail)
unfolding raw_cursor
raw_page codec dates rows limit =
    let has_more = ltb limit (length rows) in
    let items = if has_more then take limit rows else rows in
    Errors.◌>>=◌ (raw_cursor codec dates (last items)) (λ cursor. ok (record {
      items = map (λ (e : EventRow). record { row = e; venue = none }) items;
      cursor = cursor;
      has_more = has_more;
      count = length items;
    }))

unfoldable pub page_of_events : CursorCodec → Dates → Found → ℕ → Result (Page EventDetail)
unfolding raw_page
page_of_events codec dates (typed events) limit =
    ok (build_page codec (event_key dates) events limit)
page_of_events codec dates (raw rows) limit = raw_page codec dates rows limit

module _ ⦃p : Platform⦄ (dates : Dates) where
  -- `create`; the database gives the identifier, the time and the status DRAFT.
  abbrev new_event :
      String → CreateEventInput → (from to sales_from sales_to : ℕ) → String → ℕ → EventRow
  new_event organizer_id input from to sales_from sales_to id now = record {
    id = id;
    venue_id = input.venue_id;
    organizer_id = organizer_id;
    name = input.name;
    description = input.description;
    category = input.category;
    status = EventStatus.draft;
    starts_at = from;
    ends_at = to;
    sales_start_at = sales_from;
    sales_end_at = sales_to;
    poster_url = input.poster_url;
    created_at = now;
    deleted_at = none;
  }

  unfoldable pub create : String → CreateEventInput → Action EventRow
  create organizer_id input = do
    from ← lift (date dates input.starts_at)
    to ← lift (date dates input.ends_at)
    sales_from ← lift (date dates input.sales_start_at)
    sales_to ← lift (date dates input.sales_end_at)
    Repository.create (new_event organizer_id input from to sales_from sales_to)

  -- The part of `update` and `remove` before the write.
  unfoldable pub own_event : String → String → Role → String → Action EventDetail
  own_event id user_id role message = do
    found ← Repository.find_by_id id
    e ← or_throw found (event_missing id)
    throw_if (may_not e user_id role) (forbidden_error message)
    pure e

  unfoldable pub update : (id user_id : String) → Role → UpdateEventInput → Action EventRow
  unfolding own_event
  update id user_id role input = do
    _ ← own_event id user_id role "You can only update your own events"
    updated ← Repository.update id (changes dates input)
    del (cache_key id)
    pure updated

  unfoldable pub remove : (id user_id : String) → Role → Action (Unit {0})
  unfolding own_event
  remove id user_id role = do
    _ ← own_event id user_id role "You can only delete your own events"
    _ ← Repository.soft_delete id
    del (cache_key id)

  module _ ⦃j : Json EventDetail⦄ where
    -- What `findById` runs if the cache has no answer.
    unfoldable pub load : String → Action EventDetail
    load id = do found ← Repository.find_by_id id; or_throw found (event_missing id)

    unfoldable pub find_by_id : String → Action EventDetail
    find_by_id id = get_or_set (cache_key id) (load id) detail_ttl

  unfoldable pub search : CursorCodec → EventQuery → Action (Page EventDetail)
  search codec query = do
    events ← Repository.find_many codec dates query
    lift (page_of_events codec dates events (or_else query.limit default_page_size))
