-- ===== src/Booking/Reservation.antt =====
-- `Reservation` (src/modules/booking/domain/reservation.entity.ts), the entity behind a booking,
-- with its domain events (reservation.events.ts). A command returns the changed object or throws
-- before it has changed anything. Times are milliseconds, and the readings of the clock that a
-- method makes are its arguments, in their order.
pub mod Commands
pub mod History
use tickethub_backend.Common.{
  ℕ, ◌+◌, ◌-◌, ◌*◌, ◌/◌, String, ◌<>◌, Bool, true, false, Option, none, some,
}
use tickethub_backend.Common.{List, [], ◌∷◌, ◌++◌, map, if◌then◌else◌, ltb}
use tickethub_backend.Errors.{Failure, plain_error, Result, ok, err}
use tickethub_backend.Booking.Money.{Money}
use tickethub_backend.Booking.SeatHold.{SeatHold}

-- src/config/constants.ts, with the milliseconds of an hour that `hoursUntilEvent` divides by.
abbrev pub cancellation_deadline_hours : ℕ
cancellation_deadline_hours = 48

abbrev pub ms_per_hour : ℕ
ms_per_hour = 1000 * 60 * 60

pub data ReservationStatus : Type 0 where
  pending confirmed expired cancelled : ReservationStatus

unfoldable pub status_text : ReservationStatus → String
status_text pending = "PENDING"
status_text confirmed = "CONFIRMED"
status_text expired = "EXPIRED"
status_text cancelled = "CANCELLED"

pub record Seat : Type 0 where
  pub section : String
  pub row : ℕ
  pub seat : ℕ

pub data DomainEvent : Type 0 where
  -- reservation id, user, event, seats, total price in cents
  reservation_created : String → String → String → List Seat → ℕ → DomainEvent
  -- reservation id, user, event, payment
  reservation_confirmed : String → String → String → String → DomainEvent
  -- reservation id, event, seats
  reservation_expired : String → String → List Seat → DomainEvent
  -- reservation id, user, event, refund required
  reservation_cancelled : String → String → String → Bool → DomainEvent

pub record ReservationProps : Type 0 where
  pub id : String
  pub user_id : String
  pub event_id : String
  pub status : ReservationStatus
  pub seat_holds : List SeatHold
  pub total_price : Money
  pub version : ℕ
  pub expires_at : ℕ
  pub event_starts_at : ℕ
  pub confirmed_at : Option ℕ
  pub cancelled_at : Option ℕ
  pub payment_id : Option String
  pub created_at : ℕ

pub record Reservation : Type 0 where
  pub props : ReservationProps
  pub domain_events : List DomainEvent

abbrev pub seat_of : SeatHold → Seat
seat_of sh = record { section = sh.section_name; row = sh.row; seat = sh.seat }

-- `Reservation.create`; `now` becomes `createdAt`.
unfoldable pub create :
    (now : ℕ) (id user_id event_id : String)
    → List SeatHold
    → Money
    → (expires_at event_starts_at : ℕ) → Reservation
create now id user_id event_id seat_holds total_price expires_at event_starts_at = record {
  props = record {
    id = id;
    user_id = user_id;
    event_id = event_id;
    status = pending;
    seat_holds = seat_holds;
    total_price = total_price;
    version = 1;
    expires_at = expires_at;
    event_starts_at = event_starts_at;
    confirmed_at = none;
    cancelled_at = none;
    payment_id = none;
    created_at = now;
  };
  domain_events =
      reservation_created id user_id event_id (map seat_of seat_holds) total_price.amount_in_cents
      ∷ [];
}

-- `Reservation.fromPersistence`
unfoldable pub from_persistence : ReservationProps → Reservation
from_persistence props = record { props = props; domain_events = [] }

unfoldable pub pull_domain_events : Reservation → List DomainEvent × Reservation
pull_domain_events r = (r.domain_events, record r { domain_events = [] })

unfoldable pub is_hold_expired : ℕ → Reservation → Bool
is_hold_expired now r = ltb r.props.expires_at now

abbrev pub is_pending_status : ReservationStatus → Bool
is_pending_status pending = true
is_pending_status _ = false

abbrev pub is_confirmed_status : ReservationStatus → Bool
is_confirmed_status confirmed = true
is_confirmed_status _ = false

unfoldable pub is_pending : Reservation → Bool
is_pending r = is_pending_status r.props.status

unfoldable pub is_confirmed : Reservation → Bool
is_confirmed r = is_confirmed_status r.props.status

-- The last lines of `confirmPayment`: the transition and its event.
unfoldable pub confirmed_as : String → ℕ → Reservation → Reservation
confirmed_as payment_id confirmed_at r = record {
  props = record r.props {
    status = confirmed;
    confirmed_at = some confirmed_at;
    payment_id = some payment_id;
    version = r.props.version + 1;
  };
  domain_events =
      r.domain_events
      ++ reservation_confirmed r.props.id r.props.user_id r.props.event_id payment_id ∷ [];
}

not_pending_error : ReservationStatus → Failure
unfolding status_text
not_pending_error s = plain_error (
    "Cannot confirm reservation in '"
    <> status_text s
    <> "' status. Only PENDING reservations can be confirmed.")

-- `confirmPayment`, with the readings of `isHoldExpired` and of `confirmedAt`.
unfoldable pub confirm_payment : String → (now confirmed_at : ℕ) → Reservation → Result Reservation
unfolding confirmed_as not_pending_error is_hold_expired is_pending
confirm_payment payment_id now confirmed_at r =
    if is_pending r
    then if is_hold_expired now r
      then err (
          plain_error "Cannot confirm reservation: hold has expired. The seats have been released.")
      else ok (confirmed_as payment_id confirmed_at r)
    else err (not_pending_error r.props.status)

unfoldable pub expired_as : Reservation → Reservation
expired_as r = record {
  props = record r.props { status = expired; version = r.props.version + 1 };
  domain_events =
      r.domain_events
      ++ reservation_expired r.props.id r.props.event_id (map seat_of r.props.seat_holds) ∷ [];
}

-- `expire`, which returns in silence if the reservation is not pending.
unfoldable pub expire : Reservation → Reservation
unfolding is_pending expired_as
expire r = if is_pending r then expired_as r else r

-- `hoursUntilEvent() < CANCELLATION_DEADLINE_HOURS`: the quotient of the difference by the
-- milliseconds of an hour is below 48 exactly when the difference is below 48 hours.
unfoldable pub too_late_to_cancel : ℕ → Reservation → Bool
too_late_to_cancel now r =
    ltb r.props.event_starts_at (now + cancellation_deadline_hours * ms_per_hour)

-- The message, less the hours that are left.
abbrev pub deadline_error : Failure
deadline_error = plain_error "Cannot cancel: cancellation deadline is 48 hours before event."

unfoldable pub cancelled_as : Bool → ℕ → Reservation → Reservation
cancelled_as refund_required cancelled_at r = record {
  props = record r.props {
    status = cancelled;
    cancelled_at = some cancelled_at;
    version = r.props.version + 1;
  };
  domain_events =
      r.domain_events
      ++ reservation_cancelled r.props.id r.props.user_id r.props.event_id refund_required ∷ [];
}

-- The body of `cancel` at each status.
unfoldable pub cancel_from :
    ReservationStatus → (now cancelled_at : ℕ) → Reservation → Result Reservation
unfolding cancelled_as too_late_to_cancel
cancel_from expired now at r = err (plain_error "Cannot cancel an expired reservation")
cancel_from cancelled now at r = err (plain_error "Reservation is already cancelled")
cancel_from confirmed now at r =
    if too_late_to_cancel now r then err deadline_error else ok (cancelled_as true at r)
cancel_from pending now at r = ok (cancelled_as false at r)

-- `cancel`, with the readings of `hoursUntilEvent` and of `cancelledAt`.
unfoldable pub cancel : (now cancelled_at : ℕ) → Reservation → Result Reservation
unfolding cancel_from
cancel now cancelled_at r = cancel_from r.props.status now cancelled_at r

-- `toPersistence`: what is written to the database.
pub record Persisted : Type 0 where
  pub id : String
  pub user_id : String
  pub event_id : String
  pub status : ReservationStatus
  pub total_price_in_cents : ℕ
  pub version : ℕ
  pub expires_at : ℕ
  pub confirmed_at : Option ℕ
  pub cancelled_at : Option ℕ

unfoldable pub to_persistence : Reservation → Persisted
to_persistence r = record {
  id = r.props.id;
  user_id = r.props.user_id;
  event_id = r.props.event_id;
  status = r.props.status;
  total_price_in_cents = r.props.total_price.amount_in_cents;
  version = r.props.version;
  expires_at = r.props.expires_at;
  confirmed_at = r.props.confirmed_at;
  cancelled_at = r.props.cancelled_at;
}
