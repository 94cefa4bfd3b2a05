-- ===== src/Tickets/Service/Cancelled.antt =====
-- Tickets of cancelled reservations: bookings and tickets together.
use tickethub_backend.Common.{
  ℕ, suc, ◌≡◌, refl, ap, ◌∙◌, List, [], ◌∷◌, ◌++◌, inl, inr, String, Bool, some, ◌==◌, string_eq,
  arith,
}
use tickethub_backend.Common.{Bool-cases, find-update_at}
use tickethub_backend.Platform.{Platform, IsLawful}
use tickethub_backend.Errors.{Result, ok, err, Result-cases}
use tickethub_backend.World.{World, enqueue}
use tickethub_backend.World.Rows.{TicketRow, SeatHoldRow, SeatHoldStatus, valid, Job}
use tickethub_backend.Booking.Reservation.{
  Reservation, ReservationStatus, cancel, DomainEvent, pull_domain_events,
}
use tickethub_backend.Booking.Repository.{set_status, update_reservation, release_seats}
use tickethub_backend.Booking.Repository.Stored.{belongs_to}
use tickethub_backend.Booking.Service.{
  publish_cancelled, store_cancelled, cancel_loaded, cancel_reservation,
}
use tickethub_backend.Booking.Service.Loading.{load_own_cases}
use tickethub_backend.Common.{none}
use tickethub_backend.Booking.Service.Cancel
use tickethub_backend.Booking.Service.Cancel.{
  cancel_reservation-Outcome, cancel_after_load, cancel_before_load, cancel_refused,
  cancel_loaded_step,
}
use tickethub_backend.Tickets.Qr.{QrPayloadData, QrCodec, verify_payload}
use tickethub_backend.Tickets.Service.{admitted, validate_ticket, admit_ticket}
use tickethub_backend.Tickets.Service.Scans.{ticket_of, hold_of}

module _ ⦃p : Platform⦄ (L : IsLawful p) where
  publish_cancelled_frame :
      (es : List DomainEvent) (w : World) → (publish_cancelled none es w).1.tickets ≡ w.tickets
  unfolding publish_cancelled enqueue
  publish_cancelled_frame [] w = refl
  publish_cancelled_frame (DomainEvent.reservation_cancelled a b c d ∷ es) w =
      publish_cancelled_frame es (record w {
        jobs = w.jobs ++ Job.reservation_cancelled (DomainEvent.reservation_cancelled a b c d) ∷ [];
      })
  publish_cancelled_frame (DomainEvent.reservation_created a b c d e ∷ es) w =
      publish_cancelled_frame es w
  publish_cancelled_frame (DomainEvent.reservation_confirmed a b c d ∷ es) w =
      publish_cancelled_frame es w
  publish_cancelled_frame (DomainEvent.reservation_expired a b c ∷ es) w =
      publish_cancelled_frame es w

  store_cancelled_frame :
      (id : String) (r : Reservation) (w : World)
      → (store_cancelled none id r w).1.tickets ≡ w.tickets
  unfolding store_cancelled update_reservation release_seats
  store_cancelled_frame id r w =
      let v = (release_seats id (update_reservation r w).1).1 in
      ground (arith, publish_cancelled_frame (pull_domain_events r).0 v)

  cancel_loaded_frame :
      (id : String) (r : Reservation) (w : World)
      → (cancel_loaded none id r w).1.tickets ≡ w.tickets
  cancel_loaded_frame id r w =
      let now = p.clock w.readings in
      let at = p.clock (suc w.readings) in
      elim (Result-cases (cancel now at r)) [
        | inl (e, threw) ↦ rw (cancel_refused L id r w threw) refl
        | inr (r', done) ↦
            rw (cancel_loaded_step L id r r' w done)
              (store_cancelled_frame id r' (record w { readings = suc (suc w.readings) }))
      ]

  -- `cancelReservation` leaves every ticket as it is.
  pub cancel_reservation_frame :
      (user_id id : String) (w : World) → (cancel_reservation user_id id w).1.tickets ≡ w.tickets
  cancel_reservation_frame user_id id w = elim (load_own_cases L user_id id w) [
    | inl (e, threw) ↦ rw (cancel_before_load L user_id id w threw) refl
    | inr (row, e, found, listed, own, loads) ↦
        rw (cancel_after_load L user_id id _ w loads) (cancel_loaded_frame id _ w)
  ]

  module _ (iso : ℕ → String) where
    scan_valid :
        (codec : QrCodec) (payload : String) (d : QrPayloadData) (t : TicketRow) (sh : SeatHoldRow)
        (w : World)
        → verify_payload codec payload ≡ ok (some d)
        → ticket_of L iso payload w ≡ some t
        → t.status ≡ valid
        → hold_of L iso t w ≡ some sh
        → (validate_ticket iso codec payload w).0 ≡ ok (admitted t sh)
    unfolding validate_ticket admit_ticket
    scan_valid codec payload d t sh w genuine found is holds = ground (
      arith,
      L.find_first-rows (λ (u : TicketRow). u.qr_payload == payload) w.tickets,
      L.find_first-rows (λ (u : SeatHoldRow). u.id == t.seat_hold_id) w.seat_holds,
    )

    -- The seat hold of a ticket is still found after a cancellation, for the same seat.
    hold_after :
        (t : TicketRow) (sh : SeatHoldRow) (user_id id : String) (w : World)
        (o : Result ReservationStatus × World)
        → Cancel.Outcome L user_id id w o
        → hold_of L iso t w ≡ some sh
        → (sh' : SeatHoldRow) × (hold_of L iso t o.1 ≡ some sh') × (admitted t sh' ≡ admitted t sh)
    hold_after t sh user_id id w (err e, w') h holds = (sh, rw h.same_seat_holds holds, refl)
    hold_after t sh user_id id w (ok s, w') (row, found, is, h) holds =
        let q : SeatHoldRow → Bool = λ u. u.id == t.seat_hold_id in
        let f = set_status SeatHoldStatus.released in
        elim (Bool-cases (belongs_to id sh)) [
          | inl released ↦ (
            f sh,
            ground (
              arith,
              h.seat_holds_after,
              find-update_at q (belongs_to id) f (p.rows w.seat_holds) {x = sh} (λ a. refl) holds,
            ),
            refl,
          )
          | inr kept ↦ (
            sh,
            ground (
              arith,
              h.seat_holds_after,
              find-update_at q (belongs_to id) f (p.rows w.seat_holds) {x = sh} (λ a. refl) holds,
            ),
            refl,
          )
        ]

    -- Cancelling a reservation does not revoke its tickets: a genuine payload whose ticket is VALID
    -- still lets in after any cancellation, that of its own reservation too.
    pub validate-cancel :
        (codec : QrCodec) (payload : String) (d : QrPayloadData) (t : TicketRow) (sh : SeatHoldRow)
        → (user_id id : String) (w : World) → verify_payload codec payload ≡ ok (some d)
        → ticket_of L iso payload w ≡ some t
        → t.status ≡ valid
        → hold_of L iso t w ≡ some sh
        → let w' = (cancel_reservation user_id id w).1 in
          (validate_ticket iso codec payload w').0 ≡ ok (admitted t sh)
    validate-cancel codec payload d t sh user_id id w genuine found is holds =
        let o = cancel_reservation user_id id w in
        let (sh', there, same) =
          hold_after t sh user_id id w o (cancel_reservation-Outcome L user_id id w) holds in
        let still : ticket_of L iso payload o.1 ≡ some t =
          rw (cancel_reservation_frame user_id id w) found in
        scan_valid codec payload d t sh' o.1 genuine still is there ∙ ap ok same
