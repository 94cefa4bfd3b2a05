-- ===== src/Shared/Pagination.antt =====
-- src/shared/utils/pagination.ts: opaque cursors, page sizes and pages. Times are ISO texts; the
-- JSON and base64 functions are an argument.
pub mod Pages
pub mod Keyset
use tickethub_backend.Common.{ℕ, zero, suc, String, Bool, Option, none, some}
use tickethub_backend.Common.{List, [], ◌∷◌, length, take, ltb, leb, if◌then◌else◌}
use tickethub_backend.Common.Number.{
  Number, integer, fraction, nan, infinity, minus_infinity, pos, negsuc,
}
use tickethub_backend.Errors.{Result, ok, err, plain_error}

pub record CursorData : Type 0 where
  pub id : String
  pub created_at : String

-- `JSON.stringify` and `JSON.parse` of a cursor, and `Buffer` from and to base64url; `parse` gives
-- `none` where it throws.
pub record CursorCodec : Type 0 where
  pub stringify : CursorData → String
  pub parse : String → Option CursorData
  pub to_base64 : String → String
  pub from_base64 : String → String

-- The items of a page have an identifier and a time.
pub record Page (A : Type 0) : Type 0 where
  pub items : List A
  pub cursor : Option String
  pub has_more : Bool
  pub count : ℕ

-- src/config/constants.ts
abbrev pub default_page_size : ℕ
default_page_size = 20

abbrev pub max_page_size : ℕ
max_page_size = 100

unfoldable pub encode_cursor : CursorCodec → CursorData → String
encode_cursor codec d = codec.to_base64 (codec.stringify d)

-- `!data.id || !data.createdAt`, both under the `catch`.
checked : CursorData → String → String → Result CursorData
checked d String.[] created_at = err (plain_error "Invalid cursor format")
checked d (String.◌∷◌ c id) String.[] = err (plain_error "Invalid cursor format")
checked d (String.◌∷◌ c id) (String.◌∷◌ e at) = ok d

parsed : Option CursorData → Result CursorData
unfolding checked
parsed none = err (plain_error "Invalid cursor format")
parsed (some d) = checked d d.id d.created_at

unfoldable pub decode_cursor : CursorCodec → String → Result CursorData
unfolding parsed
decode_cursor codec text = parsed (codec.parse (codec.from_base64 text))

-- `x || DEFAULT_PAGE_SIZE`: 0 and NaN are falsy.
or_default : Number → Number
or_default (integer (pos zero)) = integer (pos default_page_size)
or_default (integer (pos (suc n))) = integer (pos (suc n))
or_default (integer (negsuc n)) = integer (negsuc n)
or_default (fraction x) = fraction x
or_default nan = integer (pos default_page_size)
or_default infinity = infinity
or_default minus_infinity = minus_infinity

-- `Math.max(x, 1)`
at_least_one : Number → Number
at_least_one (integer (pos zero)) = integer (pos 1)
at_least_one (integer (pos (suc n))) = integer (pos (suc n))
at_least_one (integer (negsuc n)) = integer (pos 1)
at_least_one (fraction (pos zero)) = integer (pos 1)
at_least_one (fraction (pos (suc n))) = fraction (pos (suc n))
at_least_one (fraction (negsuc n)) = integer (pos 1)
at_least_one nan = nan
at_least_one infinity = infinity
at_least_one minus_infinity = integer (pos 1)

-- `Math.min(x, MAX_PAGE_SIZE)`
at_most_max : Number → Number
at_most_max (integer (pos n)) =
    if leb n max_page_size then integer (pos n) else integer (pos max_page_size)
at_most_max (integer (negsuc n)) = integer (negsuc n)
at_most_max (fraction (pos n)) =
    if ltb n max_page_size then fraction (pos n) else integer (pos max_page_size)
at_most_max (fraction (negsuc n)) = fraction (negsuc n)
at_most_max nan = nan
at_most_max infinity = integer (pos max_page_size)
at_most_max minus_infinity = minus_infinity

-- The limit of `parsePaginationParams`, from `Number(query.limit)`.
unfoldable pub page_limit : Number → Number
unfolding or_default at_least_one at_most_max
page_limit x = at_most_max (at_least_one (or_default x))

-- `data[data.length - 1]`
abbrev pub last : {A : Type 0} → List A → Option A
last [] = none
last (x ∷ []) = some x
last (x ∷ (y ∷ ys)) = last (y ∷ ys)

cursor_of : {A : Type 0} → CursorCodec → (A → CursorData) → Option A → Option String
unfolding encode_cursor
cursor_of codec key none = none
cursor_of codec key (some item) = some (encode_cursor codec (key item))

page_of : {A : Type 0} → CursorCodec → (A → CursorData) → Bool → List A → Page A
unfolding cursor_of
page_of codec key has_more items = record {
  items = items;
  cursor = cursor_of codec key (last items);
  has_more = has_more;
  count = length items;
}

-- `buildPaginatedResponse`, of the items that a query for `limit + 1` gave.
unfoldable pub build_page : {A : Type 0} → CursorCodec → (A → CursorData) → List A → ℕ → Page A
unfolding page_of
build_page codec key items limit =
    let has_more = ltb limit (length items) in
    page_of codec key has_more (if has_more then take limit items else items)
