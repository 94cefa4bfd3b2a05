-- ===== src/Tests/Listings.antt =====
-- Two venues on pages of one, and an event that is changed and searched for.
use tickethub_backend.Common.{
  ◌≡◌, refl, Bool, ◌&&◌, none, some, map, count, string_eq, nat_eq, arith,
}
use tickethub_backend.Common.Sorted.{Sorted}
use tickethub_backend.Errors.{ok}
use tickethub_backend.Platform.Memory.{memory, memory-IsLawful}
use tickethub_backend.World.{World}
use tickethub_backend.World.Rows.{EventRow}
use tickethub_backend.World.People.{Role, VenueRow}
use tickethub_backend.Shared.Cache.{Json}
use tickethub_backend.Shared.Pagination.{CursorCodec, encode_cursor}
use tickethub_backend.Shared.Pagination.Keyset.{Dates, newest}
use tickethub_backend.Shared.Pagination.Keyset.Cursors.{IsKeyed}
use tickethub_backend.Shared.Pagination.Keyset.Walk.{walk}
use tickethub_backend.Venues.Repository.{listed, venue_created, venue_id}
use tickethub_backend.Venues.Service.{format_venue}
use tickethub_backend.Venues.Service.Listing.{asked, venues_of, pages_of, walk-find_many}
use tickethub_backend.Shared.Cache
use tickethub_backend.Events.Repository
use tickethub_backend.Events.Repository.{EventDetail, EventQuery, detail, matching, ranked}
use tickethub_backend.Events.Service
use tickethub_backend.Events.Service.{UpdateEventInput, changes, find_by_id, page_of_events, search}
use tickethub_backend.Events.Service.Changes.{UpdateOutcome, update-Outcome, event_at}
use tickethub_backend.Events.Service.Reads.{find-update, RawCases, search_by_text}
use tickethub_backend.Tests.Worlds.{world, venue_world, concert}

-- All times of the test are one time.
abbrev dates : Dates
dates = record { to_iso = λ t. "1970"; of_iso = λ text. some 7; renew = λ text. text }

abbrev codec : CursorCodec
codec = record {
  stringify = λ d. d.id;
  parse = λ text. some (record { id = text; created_at = "1970" });
  to_base64 = λ text. text;
  from_base64 = λ text. text;
}

hall-IsKeyed : IsKeyed codec dates 7 "v"
unfolding encode_cursor
hall-IsKeyed = record {
  from_base64-to_base64 = λ s. refl;
  parse-stringify = refl;
  of_iso-to_iso = refl;
  renew-to_iso = refl;
  is_text = λ h. cc;
  has_id = λ h. cc;
  has_time = λ h. cc;
}

arena-IsKeyed : IsKeyed codec dates 7 "v2"
unfolding encode_cursor
arena-IsKeyed = record {
  from_base64-to_base64 = λ s. refl;
  parse-stringify = refl;
  of_iso-to_iso = refl;
  renew-to_iso = refl;
  is_text = λ h. cc;
  has_id = λ h. cc;
  has_time = λ h. cc;
}

walk-find_many_example :
    (walk (pages_of memory-IsLawful codec dates none 1 venue_world) 3 none
      ≡ some (map (format_venue dates) (venues_of memory-IsLawful codec dates none venue_world)))
    × Sorted
        (newest venue_created venue_id)
        (venues_of memory-IsLawful codec dates none venue_world)
    × ((q : VenueRow → Bool)
        → count q (venues_of memory-IsLawful codec dates none venue_world)
          ≡ count (λ v. listed (asked none 0 none) v && q v) (memory.rows venue_world.venues))
unfolding memory venue_world
walk-find_many_example =
    walk-find_many memory-IsLawful codec dates none 0 venue_world 3 (((λ h. cc), tt), (tt, tt))
      (hall-IsKeyed, (arena-IsKeyed, tt)) (omega arith)

abbrev renamed : UpdateEventInput
renamed = record {
  name = some "Late concert";
  description = none;
  category = none;
  status = none;
  starts_at = none;
  ends_at = none;
  sales_start_at = none;
  sales_end_at = none;
  poster_url = none;
}

update-Outcome_example :
    UpdateOutcome memory-IsLawful dates "e" "o" Role.organizer renamed world
      (Service.update dates "e" "o" Role.organizer renamed world)
update-Outcome_example = update-Outcome memory-IsLawful dates "e" "o" Role.organizer renamed world

instance mute : Json EventDetail
mute = record { stringify = λ e. ""; parse = λ text. none }

unfoldable changed_world : World
unfolding memory world string_eq Service.update
changed_world = (Service.update dates "e" "o" Role.organizer renamed world).1

find-update_example :
    (f : EventRow → EventRow) × (row : EventRow) × (changes dates renamed ≡ ok f)
    × (event_at memory-IsLawful dates "e" world ≡ some row)
    × ((find_by_id dates "e" changed_world).0 ≡ ok (detail changed_world (f row)))
unfolding memory world changed_world string_eq Service.update Repository.find_by_id
    Repository.update changes Cache.del
find-update_example =
    find-update memory-IsLawful dates "e" "o" Role.organizer renamed world
      (record concert { name = "Late concert" }) changed_world refl

abbrev by_name : EventQuery
by_name = record {
  q = some "opera";
  city = none;
  category = none;
  date_from = none;
  date_to = none;
  status = none;
  cursor = none;
  limit = none;
}

search_by_text_example :
    RawCases
      (memory.find_page (matching "opera" by_name world) (ranked "opera") 21 world.events)
      (search dates codec by_name world).0
search_by_text_example =
    search_by_text memory-IsLawful dates codec by_name "opera" world refl (omega arith)
