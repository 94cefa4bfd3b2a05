-- ===== src/Booking/Service/Hold.antt =====
-- `createReservation` of src/modules/booking/booking.service.ts: seats held under their locks.
pub mod Seats
use tickethub_backend.Common.{
  ℕ, ◌+◌, ◌*◌, String, ◌<>◌, Bool, true, false, some, List, [], ◌∷◌, not, ◌==◌, string_eq, length,
  map, ltb,
}
use tickethub_backend.Common.Number.{integer, pos}
use tickethub_backend.Common.Decimal.{decimal}
use tickethub_backend.Platform.{Platform}
use tickethub_backend.Errors.{Failure, validation_error, not_found_error, seat_unavailable_error}
use tickethub_backend.World.{
  Action, ◌>>=◌, ◌>>◌, pure, lift, gets, or_throw, throw_if, catch, new_date, uuid, enqueue,
}
use tickethub_backend.World.Rows.{expire_hold, EventStatus, published}
use tickethub_backend.Shared.Cache.{Json}
use tickethub_backend.Shared.SeatLock.{with_locks}
use tickethub_backend.Pricing.Replay.{Price}
use tickethub_backend.Pricing.Service.{get_section_price}
use tickethub_backend.Booking.Money.{from_cents}
use tickethub_backend.Booking.SeatHold
use tickethub_backend.Booking.SeatHold.{SeatHold, seat_key}
use tickethub_backend.Booking.Reservation
use tickethub_backend.Booking.Reservation.{Reservation, Seat, DomainEvent, reservation_created}
use tickethub_backend.Booking.Repository.{
  create_reservation, is_seat_available, get_user_seat_count,
}

-- src/config/constants.ts
abbrev pub max_seats_per_booking : ℕ
max_seats_per_booking = 6

abbrev pub reservation_ttl_ms : ℕ
reservation_ttl_ms = 10 * 60 * 1000

abbrev pub key_of : Seat → String
key_of s = seat_key s.section s.row s.seat

abbrev is_published : EventStatus → Bool
is_published published = true
is_published _ = false

too_many_seats : ℕ → Failure
too_many_seats existing = validation_error (
    "Maximum "
    <> decimal max_seats_per_booking
    <> " seats per event. You already have "
    <> decimal existing
    <> ".")

module _ ⦃p : Platform⦄ where
  -- The loop of step 3.
  unfoldable pub check_seats : String → List Seat → Action (Unit {0})
  unfolding is_seat_available
  check_seats event_id [] = pure tt
  check_seats event_id (s ∷ ss) = do
    available ← is_seat_available event_id s.section s.row s.seat
    throw_if (not available) (seat_unavailable_error (key_of s))
    check_seats event_id ss

  -- The sum of step 4.
  abbrev pub total_price : List SeatHold → ℕ
  total_price [] = 0
  total_price (sh ∷ shs) = sh.price_in_cents + total_price shs

  module _ ⦃j : Json Price⦄ where
    -- The loop of step 4: a section whose price throws is priced at 0.
    price_seats : String → ℕ → List Seat → Action (List SeatHold)
    unfolding uuid new_date
    price_seats event_id expires_at [] = pure []
    price_seats event_id expires_at (s ∷ ss) = do
      price ← catch (get_section_price event_id s.section) (pure 0)
      id ← uuid
      now ← new_date
      hold ← lift (
          SeatHold.create now (record {
            seat_hold_id = id;
            event_id = event_id;
            section_name = s.section;
            row = s.row;
            seat = s.seat;
            price_in_cents = price;
            expires_at = expires_at;
          }))
      rest ← price_seats event_id expires_at ss
      pure (hold ∷ rest)

    -- Steps 5 to 8, once the seats are priced.
    book :
        (on_created : DomainEvent → Action (Unit {0})) (user_id event_id : String)
        → List Seat
        → ℕ
        → List SeatHold
        → Action Reservation
    unfolding uuid new_date enqueue
    book on_created user_id event_id seats expires_at holds = do
      found ← gets (λ w. p.find_first (λ e. e.id == event_id) w.events)
      event ← or_throw found (not_found_error "Event" (some event_id))
      throw_if (not (is_published event.status))
          (validation_error "This event is not available for booking")
      id ← uuid
      total ← lift (from_cents (integer (pos (total_price holds))) "TRY")
      now ← new_date
      let r = Reservation.create now id user_id event_id holds total expires_at event.starts_at
      create_reservation r
      enqueue (expire_hold id event_id seats reservation_ttl_ms ("expire-" <> id))
      on_created (reservation_created id user_id event_id seats (total_price holds))
      pure r

    -- Steps 3 to 8, under the locks.
    hold_seats :
        (on_created : DomainEvent → Action (Unit {0})) (user_id event_id : String)
        → List Seat
        → Action Reservation
    unfolding check_seats price_seats book
    hold_seats on_created user_id event_id seats = do
      check_seats event_id seats
      now ← new_date
      let expires_at = now + reservation_ttl_ms
      holds ← price_seats event_id expires_at seats
      book on_created user_id event_id seats expires_at holds

    -- `createReservation`. What it returns is read off the reservation.
    unfoldable pub hold :
        (on_created : DomainEvent → Action (Unit {0})) (user_id event_id : String)
        → List Seat
        → Action Reservation
    unfolding hold_seats too_many_seats
    hold on_created user_id event_id seats = do
      existing ← get_user_seat_count user_id event_id
      throw_if (ltb max_seats_per_booking (existing + length seats)) (too_many_seats existing)
      with_locks event_id (map key_of seats) (hold_seats on_created user_id event_id seats)
