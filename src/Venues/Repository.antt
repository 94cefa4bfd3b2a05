-- ===== src/Venues/Repository.antt =====
-- src/modules/venues/venues.repository.ts: the queries on the table of venues.
use tickethub_backend.Common.{
  ℕ, suc, String, Bool, true, not, ◌&&◌, Option, none, some, List, ◌==◌, string_eq, nat_eq,
}
use tickethub_backend.Platform.{Platform}
use tickethub_backend.Errors.{Failure, unique_violation, plain_error}
use tickethub_backend.World.{
  Action, ◌>>=◌, ◌>>◌, pure, lift, gets, modify, or_throw, new_date, uuid,
}
use tickethub_backend.World.People.{VenueRow, same_venue}
use tickethub_backend.Shared.Pagination.{CursorCodec, default_page_size}
use tickethub_backend.Shared.Pagination.Keyset.{
  Dates, read_cursor, cursor_condition, newest, truthy,
}

pub record VenueData : Type 0 where
  pub name : String
  pub address : String
  pub city : String
  pub capacity : ℕ
  pub seat_layout : String

-- What an update gives: the fields that are there are written.
pub record VenueChanges : Type 0 where
  pub name : Option String
  pub address : Option String
  pub city : Option String
  pub capacity : Option ℕ
  pub seat_layout : Option String

pub record VenueQuery : Type 0 where
  pub city : Option String
  pub cursor : Option String
  pub limit : Option ℕ

-- `x ?? y`
abbrev pub or_else : {A : Type 0} → Option A → A → A
or_else none y = y
or_else (some x) y = x

-- `prisma.update` of a row that is not there.
abbrev pub record_missing : Failure
record_missing =
    plain_error
      "An operation failed because it depends on one or more records that were required but not found."

-- `deletedAt: null`
abbrev pub is_null : {A : Type 0} → Option A → Bool
is_null none = true
is_null (some x) = not true

abbrev pub is_venue : String → VenueRow → Bool
is_venue id v = v.id == id && is_null v.deleted_at

abbrev pub changed : VenueChanges → VenueRow → VenueRow
changed c v = record v {
  name = or_else c.name v.name;
  address = or_else c.address v.address;
  city = or_else c.city v.city;
  capacity = or_else c.capacity v.capacity;
  seat_layout = or_else c.seat_layout v.seat_layout;
}

abbrev pub venue_created : VenueRow → ℕ
venue_created v = v.created_at

abbrev pub venue_id : VenueRow → String
venue_id v = v.id

module _ ⦃p : Platform⦄ where
  insert : VenueRow → Action (Unit {0})
  insert row = do
    table ← gets (λ w. p.create same_venue row w.venues)
    table' ← or_throw table (unique_violation "venues")
    modify (λ w. record w { venues = table' })

  unfoldable pub create : VenueData → Action VenueRow
  unfolding insert new_date uuid
  create d = do
    id ← uuid
    now ← new_date
    let row : VenueRow = record {
      id = id;
      name = d.name;
      address = d.address;
      city = d.city;
      capacity = d.capacity;
      seat_layout = d.seat_layout;
      created_at = now;
      deleted_at = none;
    }
    insert row
    pure row

  unfoldable pub find_by_id : String → Action (Option VenueRow)
  find_by_id id = gets (λ w. p.find_first (is_venue id) w.venues)

  -- `contains` with `mode: 'insensitive'`, if a city is asked for.
  abbrev pub in_city : Option String → VenueRow → Bool
  in_city none v = true
  in_city (some part) v = p.contains v.city part

  abbrev pub listed : VenueQuery → VenueRow → Bool
  listed q v = is_null v.deleted_at && in_city (truthy q.city) v

  unfoldable pub find_many : CursorCodec → Dates → VenueQuery → Action (List VenueRow)
  find_many codec dates q = do
    key ← lift (read_cursor codec dates q.cursor)
    gets (λ w.
        p.find_page (λ v. listed q v && cursor_condition venue_created venue_id key v)
          (newest venue_created venue_id) (suc (or_else q.limit default_page_size)) w.venues)

  update_row : String → (VenueRow → VenueRow) → Action VenueRow
  update_row id f = do
    found ← gets (λ w. p.find_first (λ v. v.id == id) w.venues)
    row ← or_throw found record_missing
    modify (λ w. record w { venues = (p.update_many (λ v. v.id == id) f w.venues).0 })
    pure (f row)

  unfoldable pub update : String → VenueChanges → Action VenueRow
  unfolding update_row
  update id c = update_row id (changed c)

  abbrev pub deleted : ℕ → VenueRow → VenueRow
  deleted now v = record v { deleted_at = some now }

  unfoldable pub soft_delete : String → Action VenueRow
  unfolding update_row new_date
  soft_delete id = do now ← new_date; update_row id (deleted now)
