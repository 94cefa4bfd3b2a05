-- ===== src/Venues/Service.antt =====
-- src/modules/venues/venues.service.ts: venues as the API gives them, and their listing by pages.
pub mod Listing
use tickethub_backend.Common.{ℕ, String, Option, none, some, List, map}
use tickethub_backend.Platform.{Platform}
use tickethub_backend.Errors.{Failure, not_found_error}
use tickethub_backend.World.{World, Action, ◌>>=◌, ◌>>◌, pure, or_throw}
use tickethub_backend.World.People.{VenueRow}
use tickethub_backend.Shared.Pagination.{
  CursorData, CursorCodec, Page, build_page, default_page_size,
}
use tickethub_backend.Shared.Pagination.Keyset.{Dates}
use tickethub_backend.Venues.Repository
use tickethub_backend.Venues.Repository.{VenueData, VenueChanges, VenueQuery, or_else}

pub record VenueResponse : Type 0 where
  pub id : String
  pub name : String
  pub address : String
  pub city : String
  pub capacity : ℕ
  pub seat_layout : String
  pub created_at : String

abbrev pub format_venue : Dates → VenueRow → VenueResponse
format_venue dates v = record {
  id = v.id;
  name = v.name;
  address = v.address;
  city = v.city;
  capacity = v.capacity;
  seat_layout = v.seat_layout;
  created_at = dates.to_iso v.created_at;
}

-- The cursor of an item: its time is made a `Date` again, and that a text.
abbrev pub venue_key : Dates → VenueResponse → CursorData
venue_key dates v = record { id = v.id; created_at = dates.renew v.created_at }

module _ ⦃p : Platform⦄ (codec : CursorCodec) (dates : Dates) where
  unfoldable pub create : VenueData → Action VenueResponse
  create d = do row ← Repository.create d; pure (format_venue dates row)

  abbrev pub venue_missing : String → Failure
  venue_missing id = not_found_error "Venue" (some id)

  unfoldable pub find_by_id : String → Action VenueResponse
  find_by_id id = do
    found ← Repository.find_by_id id
    v ← or_throw found (venue_missing id)
    pure (format_venue dates v)

  unfoldable pub find_many : VenueQuery → Action (Page VenueResponse)
  find_many q = do
    venues ← Repository.find_many codec dates q
    pure (
        build_page codec (venue_key dates) (map (format_venue dates) venues)
          (or_else q.limit default_page_size))

  unfoldable pub update : String → VenueChanges → Action VenueResponse
  update id c = do
    found ← Repository.find_by_id id
    _ ← or_throw found (venue_missing id)
    v ← Repository.update id c
    pure (format_venue dates v)

  unfoldable pub remove : String → Action (Unit {0})
  remove id = do
    found ← Repository.find_by_id id
    _ ← or_throw found (venue_missing id)
    _ ← Repository.soft_delete id
    pure tt
