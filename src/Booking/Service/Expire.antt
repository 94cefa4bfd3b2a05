-- ===== src/Booking/Service/Expire.antt =====
-- `expireReservation`, the job of the worker, against the tables.
use tickethub_backend.Common.{◌+◌, ◌≡◌, ◌≢◌, String, some, ◌&&◌, ◌==◌, string_eq, nat_eq, arith}
use tickethub_backend.Common.{update}
use tickethub_backend.Platform.{Platform, IsLawful}
use tickethub_backend.Errors.{ok}
use tickethub_backend.World.{World, bind_ok}
use tickethub_backend.World.Rows.{ReservationRow, EventRow, SeatHoldStatus}
use tickethub_backend.Booking.Reservation.{Reservation, pending, expired, is_pending}
use tickethub_backend.Booking.Repository.{set_status, find_by_id}
use tickethub_backend.Booking.Repository.Stored.{
  belongs_to, row_at, event_at, reservation_of, find_by_id_lem,
}
use tickethub_backend.Booking.Service.{expire_loaded, expire_reservation}

module _ ⦃p : Platform⦄ (L : IsLawful p) where
  expire_found :
      (id : String) (row : ReservationRow) (e : EventRow) (w : World)
      → row_at id w ≡ some row
      → event_at row.event_id w ≡ some e
      → expire_reservation id w ≡ expire_loaded id (some (reservation_of w row e)) w
  unfolding expire_reservation
  expire_found id row e w found listed =
      bind_ok (find_by_id id) (expire_loaded id) (ground (arith, find_by_id_lem L id w))

  -- The job changes nothing when the reservation is no longer pending.
  pub expire_reservation_done :
      (id : String) (row : ReservationRow) (e : EventRow) (w : World)
      → row_at id w ≡ some row
      → event_at row.event_id w ≡ some e
      → row.status ≢ pending
      → expire_reservation id w ≡ (ok tt, w)
  unfolding expire_loaded is_pending
  expire_reservation_done id row e w found listed other =
      ground (arith, expire_found id row e w found listed)

  -- What the job leaves of a pending row.
  pub record IsLapsed (id : String) (row : ReservationRow) (w w' : World) : Type 0 where
    -- The row becomes expired, with the next version; no other row changes.
    pub reservations_after :
        p.rows w'.reservations
        ≡ update
            (λ r. r.id == row.id && r.version + 1 == row.version + 1)
            (λ r. record r {
              status = expired;
              version = row.version + 1;
              confirmed_at = row.confirmed_at;
              cancelled_at = row.cancelled_at;
            })
            (p.rows w.reservations)
    -- Its seats are released, and no other.
    pub seat_holds_after :
        p.rows w'.seat_holds
        ≡ update (belongs_to id) (set_status SeatHoldStatus.released) (p.rows w.seat_holds)
    pub same_jobs : w'.jobs ≡ w.jobs
