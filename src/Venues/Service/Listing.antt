-- ===== src/Venues/Service/Listing.antt =====
-- The listing of venues, page after page.
use tickethub_backend.Common.{
  ℕ, suc, ◌<◌, ◌≡◌, ap, ◌∙◌, String, Bool, ◌&&◌, Option, none, some, arith,
}
use tickethub_backend.Common.{List, map, length, count, All, All-weaken}
use tickethub_backend.Common.Sorted.{Sorted}
use tickethub_backend.Platform.{Platform, IsLawful}
use tickethub_backend.Errors.{Result, ok}
use tickethub_backend.World.{World}
use tickethub_backend.World.People.{VenueRow}
use tickethub_backend.Shared.Pagination.{CursorCodec, Page, build_page, encode_cursor}
use tickethub_backend.Shared.Pagination.Keyset.{Dates, Key, read_cursor, cursor_condition, newest}
use tickethub_backend.Shared.Pagination.Keyset.Cursors.{IsKeyed, read-encode}
use tickethub_backend.Shared.Pagination.Keyset.Ordered.{
  listing, listing-Sorted, find_page-listing, DistinctIds, count-listing, length-listing,
  All-listing,
}
use tickethub_backend.Shared.Pagination.Keyset.Walk.{walk, walk-listing, IsPaged}
use tickethub_backend.Venues.Repository
use tickethub_backend.Venues.Repository.{VenueQuery, listed, venue_created, venue_id}
use tickethub_backend.Venues.Service.{VenueResponse, format_venue, venue_key, find_many}

abbrev pub asked : Option String → ℕ → Option String → VenueQuery
asked city limit cursor = record { city = city; cursor = cursor; limit = some limit }

module _ ⦃p : Platform⦄ (L : IsLawful p) (codec : CursorCodec) (dates : Dates) where
  -- The venues that a query asks for, newest first.
  abbrev pub venues_of : Option String → World → List VenueRow
  venues_of city w = listing L venue_created venue_id (listed (asked city 0 none)) (p.rows w.venues)

  abbrev pub pages_of : Option String → ℕ → World → Option String → Result (Page VenueResponse)
  pages_of city limit w cursor = (find_many codec dates (asked city limit cursor) w).0

  abbrev pub IsKeyedRow : VenueRow → Type 0
  IsKeyedRow v = IsKeyed codec dates v.created_at v.id

  abbrev IsReadRow : VenueRow → Type 0
  IsReadRow v =
      read_cursor codec dates (some (encode_cursor codec (venue_key dates (format_venue dates v))))
      ≡ ok (some (v.created_at, v.id))

  read_row : (v : VenueRow) → IsKeyedRow v → IsReadRow v
  read_row v h =
      ap
        (λ t.
          read_cursor codec dates
            (some (encode_cursor codec (record { id = v.id; created_at = t }))))
        h.renew-to_iso
      ∙ read-encode codec dates v.created_at v.id h

  fetched :
      (city : Option String) (m : ℕ) (w : World) (cursor : Option String) (k : Option Key)
      → read_cursor codec dates cursor ≡ ok k
      → pages_of city (suc m) w cursor
        ≡ ok (
            build_page codec
              (venue_key dates)
              (map (format_venue dates) (
                p.find_page
                  (λ v. listed (asked city 0 none) v && cursor_condition venue_created venue_id k v)
                  (newest venue_created venue_id)
                  (suc (suc m))
                  w.venues))
              (suc m))
  unfolding find_many Repository.find_many
  fetched city m w cursor k read = ground arith

  venues-IsPaged :
      (city : Option String) (m : ℕ) (w : World)
      → DistinctIds L venue_created venue_id (p.rows w.venues)
      → All IsKeyedRow (p.rows w.venues)
      → IsPaged L venue_created venue_id codec dates
          (venue_key dates)
          (format_venue dates)
          m
          (venues_of city w)
          (pages_of city (suc m) w)
  venues-IsPaged city m w distinct keyed = record {
    fetch_page = λ cursor k read.
        fetched city m w cursor k read
        ∙ (ap
            (λ rows.
              ok (build_page codec (venue_key dates) (map (format_venue dates) rows) (suc m)))
            (find_page-listing L venue_created venue_id (listed (asked city 0 none)) k (suc (suc m))
              w.venues distinct));
    read_keys =
        All-listing L venue_created venue_id IsReadRow (listed (asked city 0 none))
          (p.rows w.venues)
          (All-weaken IsKeyedRow IsReadRow (p.rows w.venues) (λ v h. read_row v h) keyed);
  }

  -- Following the cursors of the venues' listing from its first page ends, and the pages together
  -- hold every venue that the query asks for, as often as the table does, newest first. It is
  -- assumed that the rows have their own identifiers and that cursors of them can be read back.
  pub walk-find_many :
      (city : Option String) (m : ℕ) (w : World) (n : ℕ)
      → DistinctIds L venue_created venue_id (p.rows w.venues)
      → All IsKeyedRow (p.rows w.venues)
      → length (p.rows w.venues) < n
      → (walk (pages_of city (suc m) w) n none ≡ some (map (format_venue dates) (venues_of city w)))
        × Sorted (newest venue_created venue_id) (venues_of city w)
        × ((q : VenueRow → Bool)
            → count q (venues_of city w)
              ≡ count (λ v. listed (asked city 0 none) v && q v) (p.rows w.venues))
  walk-find_many city m w n distinct keyed long = (
    walk-listing L venue_created venue_id codec dates (venue_key dates) (format_venue dates) m
        (venues_of city w) (pages_of city (suc m) w)
        (listing-Sorted L venue_created venue_id (listed (asked city 0 none)) (p.rows w.venues)
          distinct)
        (venues-IsPaged city m w distinct keyed) n
        (omega (
          arith,
          long,
          length-listing L venue_created venue_id (listed (asked city 0 none)) (p.rows w.venues),
        )),
    listing-Sorted L venue_created venue_id (listed (asked city 0 none)) (p.rows w.venues) distinct,
    λ q. count-listing L venue_created venue_id (listed (asked city 0 none)) q (p.rows w.venues),
  )
