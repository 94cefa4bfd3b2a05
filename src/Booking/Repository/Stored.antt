-- ===== src/Booking/Repository/Stored.antt =====
-- What `findById` reads: the reservation that the rows of the tables stand for.
use tickethub_backend.Common.{◌≡◌, refl, String, Bool, Option, none, some, ◌==◌, string_eq, arith}
use tickethub_backend.Common.{find}
use tickethub_backend.Platform.{Platform, IsLawful}
use tickethub_backend.Errors.{Result, ok, err, plain_error, Failure}
use tickethub_backend.World.{World}
use tickethub_backend.World.Rows.{ReservationRow, SeatHoldRow, EventRow}
use tickethub_backend.Booking.Reservation.{Reservation}
use tickethub_backend.Booking.Repository.{find_by_id, load_found, loaded}

abbrev pub has_id : String → ReservationRow → Bool
has_id id r = r.id == id

abbrev pub belongs_to : String → SeatHoldRow → Bool
belongs_to id sh = sh.reservation_id == id

abbrev pub missing_event : Failure
missing_event = plain_error "Inconsistent query result: field event is required"

module _ ⦃p : Platform⦄ where
  -- The row of a reservation, and the row of its event.
  abbrev pub row_at : String → World → Option ReservationRow
  row_at id w = find (has_id id) (p.rows w.reservations)

  abbrev pub event_at : String → World → Option EventRow
  event_at id w = find (λ e. e.id == id) (p.rows w.events)

  abbrev pub reservation_of : World → ReservationRow → EventRow → Reservation
  reservation_of w r e =
      loaded r (p.find_many (belongs_to r.id) w.seat_holds) e
        (record { amount_in_cents = r.total_price_in_cents; currency = "TRY" })

  abbrev pub with_event : World → ReservationRow → Option EventRow → Result (Option Reservation)
  with_event w r none = err missing_event
  with_event w r (some e) = ok (some (reservation_of w r e))

  abbrev pub with_row : World → Option ReservationRow → Result (Option Reservation)
  with_row w none = ok none
  with_row w (some r) = with_event w r (event_at r.event_id w)

module _ ⦃p : Platform⦄ (L : IsLawful p) where
  load_found_lem : (o : Option ReservationRow) (w : World) → load_found o w ≡ (with_row w o, w)
  unfolding find_by_id
  load_found_lem none w = refl
  load_found_lem (some r) w =
      ground (arith, L.find_first-rows (λ (e : EventRow). e.id == r.event_id) w.events)

  -- `findById` gives the reservation that the rows stand for, and changes nothing.
  pub find_by_id_lem : (id : String) (w : World) → find_by_id id w ≡ (with_row w (row_at id w), w)
  unfolding find_by_id
  find_by_id_lem id w = rw L.find_first-rows (load_found_lem (row_at id w) w)
