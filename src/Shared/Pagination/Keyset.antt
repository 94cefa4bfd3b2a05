-- ===== src/Shared/Pagination/Keyset.antt =====
-- The cursor condition and the order that src/modules/events/events.repository.ts and
-- src/modules/venues/venues.repository.ts put into their listings: newest first, by `createdAt` and
-- then by `id`.
mod Cuts
pub mod Ordered
pub mod Walk
pub mod Cursors
use tickethub_backend.Common.{
  ℕ, String, Bool, true, ◌&&◌, ◌||◌, Option, none, some, ltb, ◌==◌, nat_eq,
}
use tickethub_backend.Platform.{Platform}
use tickethub_backend.Errors.{Result, ok, err, plain_error, ◌>>=◌}
use tickethub_backend.Shared.Pagination.{CursorData, CursorCodec, decode_cursor}

-- `toISOString`, `new Date` of a text (`none` is an invalid date), and one after the other.
pub record Dates : Type 0 where
  pub to_iso : ℕ → String
  pub of_iso : String → Option ℕ
  pub renew : String → String

-- A query with an invalid date is refused by the database client.
abbrev pub invalid_date : Result ℕ
invalid_date = err (plain_error "Invalid value: Provided Date object is invalid. Expected Date.")

abbrev pub date_of : Option ℕ → Result ℕ
date_of none = invalid_date
date_of (some t) = ok t

-- `{ createdAt, id }` of a cursor, as the query compares them.
abbrev pub Key : Type 0
Key = ℕ × String

unfoldable pub key_of : CursorCodec → Dates → String → Result (Option Key)
key_of codec dates text = decode_cursor codec text >>= λ d.
    date_of (dates.of_iso d.created_at) >>= λ at. ok (some (at, d.id))

-- `if (query.cursor)`: an empty text counts as none.
unfoldable pub read_cursor : CursorCodec → Dates → Option String → Result (Option Key)
unfolding key_of
read_cursor codec dates none = ok none
read_cursor codec dates (some String.[]) = ok none
read_cursor codec dates (some (String.◌∷◌ c s)) = key_of codec dates (String.◌∷◌ c s)

-- `if (x)` of an optional text: an empty one counts as none.
abbrev pub truthy : Option String → Option String
truthy none = none
truthy (some String.[]) = none
truthy (some (String.◌∷◌ c s)) = some (String.◌∷◌ c s)

module _ ⦃p : Platform⦄ {R : Type 0} (created : R → ℕ) (id : R → String) where
  -- `{ createdAt: { lt } }` or `{ createdAt: { equals }, id: { lt } }`
  abbrev pub is_after : Key → R → Bool
  is_after (at, i) r = ltb (created r) at || (created r == at && p.text_lt (id r) i)

  abbrev pub cursor_condition : Option Key → R → Bool
  cursor_condition none r = true
  cursor_condition (some k) r = is_after k r

  -- `orderBy: [{ createdAt: 'desc' }, { id: 'desc' }]`
  abbrev pub newest : R → R → Bool
  newest a b = is_after (created a, id a) b
