-- ===== src/Booking/SeatHold.antt =====
-- `SeatHold` (src/modules/booking/domain/seat-hold.value-object.ts): one seat held until a time.
-- Times are milliseconds; the reading of the clock that a method makes is its argument.
use tickethub_backend.Common.{ℕ, String, ◌<>◌, Bool, if◌then◌else◌, ltb, leb}
use tickethub_backend.Common.Decimal.{decimal}
use tickethub_backend.Errors.{plain_error, Result, ok, err}

pub record SeatHold : Type 0 where
  pub seat_hold_id : String
  pub event_id : String
  pub section_name : String
  pub row : ℕ
  pub seat : ℕ
  pub price_in_cents : ℕ
  pub expires_at : ℕ

-- `SeatHold.create`
unfoldable pub create : ℕ → SeatHold → Result SeatHold
create now props =
    if leb props.expires_at now
    then err (plain_error "SeatHold expiresAt must be in the future")
    else ok props

-- `SeatHold.fromPersistence`
unfoldable pub from_persistence : SeatHold → SeatHold
from_persistence props = props

-- The key of a seat, which its lock is named after.
unfoldable pub seat_key : String → ℕ → ℕ → String
seat_key section row seat = section <> "-" <> decimal row <> "-" <> decimal seat

unfoldable pub is_expired : ℕ → SeatHold → Bool
is_expired now h = ltb h.expires_at now
