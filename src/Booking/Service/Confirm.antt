-- ===== src/Booking/Service/Confirm.antt =====
-- `confirmReservation` against the tables, when none of its writes is cut short: what it writes, and
-- that one whose own tests refuse it writes nothing.
use tickethub_backend.Common.{
  ℕ, suc, ◌+◌, ◌≤◌, ◌≡◌, refl, ◌∙◌, inl, inr, String, Bool, true, false, none, some, ◌==◌,
  string_eq, nat_eq, arith,
}
use tickethub_backend.Common.{
  [], ◌∷◌, ◌++◌, ◌&&◌, count, update, update-count_zero, Bool-cases, ==_refl, find-count,
}
use tickethub_backend.Platform.{Platform, IsLawful}
use tickethub_backend.Errors.{Result, ok, err, Failure, hold_expired_error, Result-cases}
use tickethub_backend.World.{World, enqueue, bind_ok, bind_err}
use tickethub_backend.World.Rows.{ReservationRow, EventRow, SeatHoldStatus, Job, notification_send}
use tickethub_backend.Booking.Reservation.{
  Reservation, ReservationProps, ReservationStatus, pending, confirmed, DomainEvent, to_persistence,
  confirm_payment, confirmed_as, is_hold_expired, pull_domain_events,
}
use tickethub_backend.Booking.Reservation.Commands.{confirm_payment_ok, confirm_payment_iff}
use tickethub_backend.Booking.Repository.{
  is_previous, overwrite, stale_error, confirm_seats, set_status,
}
use tickethub_backend.Booking.Repository.Concurrency.{update_reservation_lem}
use tickethub_backend.Booking.Repository.Stored.{
  has_id, belongs_to, row_at, event_at, reservation_of,
}
use tickethub_backend.Booking.Service.Loading.{load_own_cases, load_own_found}
use tickethub_backend.Booking.Service.{
  load_own, store_confirmed, confirm_loaded, confirm_reservation,
}

module _ ⦃p : Platform⦄ (L : IsLawful p) where
  -- What is as it was: the reservations, the seat holds and the jobs.
  pub record IsUntouched (w w' : World) : Type 0 where
    pub same_reservations : p.rows w'.reservations ≡ p.rows w.reservations
    pub same_seat_holds : p.rows w'.seat_holds ≡ p.rows w.seat_holds
    pub same_jobs : w'.jobs ≡ w.jobs

  -- A reservation just loaded, which has no events yet.
  abbrev fresh : ReservationProps → Reservation
  fresh props = record { props = props; domain_events = [] }

  -- The world after the write of a confirmed reservation.
  abbrev written : Reservation → World → World
  written r w = record w {
    reservations =
        (p.update_many (is_previous (to_persistence r)) (overwrite (to_persistence r))
          w.reservations).0;
  }

  abbrev is_stale : Reservation → World → Bool
  is_stale r w = count (is_previous (to_persistence r)) (p.rows w.reservations) == 0

  store_confirmed_stale :
      (user_id id payment_id : String) (r : Reservation) (w : World)
      → is_stale r w ≡ true
      → store_confirmed none user_id id payment_id r w ≡ (err stale_error, written r w)
  unfolding store_confirmed
  store_confirmed_stale user_id id payment_id r w h = ground (arith, update_reservation_lem L r w)

  store_confirmed_found :
      (user_id id payment_id : String) (at : ℕ) (props : ReservationProps) (w : World)
      → let r = confirmed_as payment_id at (fresh props) in
        is_stale r w ≡ false
        → store_confirmed none user_id id payment_id r w ≡ (
          ok confirmed,
          record (written r w) {
            seat_holds =
                (p.update_many
                  (belongs_to id)
                  (set_status SeatHoldStatus.confirmed)
                  w.seat_holds).0;
            jobs =
                (w.jobs
                  ++ Job.reservation_confirmed (
                      DomainEvent.reservation_confirmed props.id props.user_id props.event_id
                        payment_id)
                    ∷ [])
                ++ notification_send "BOOKING_CONFIRMED" user_id id payment_id ∷ [];
          },
        )
  unfolding store_confirmed confirm_seats confirmed_as pull_domain_events enqueue
  store_confirmed_found user_id id payment_id at props w h =
      ground (arith, update_reservation_lem L (confirmed_as payment_id at (fresh props)) w)

  confirm_loaded_step :
      (user_id id payment_id : String) (r r' : Reservation) (w : World)
      → is_hold_expired (p.clock w.readings) r ≡ false
      → confirm_payment payment_id (p.clock (suc w.readings)) (p.clock (suc (suc w.readings))) r
        ≡ ok r'
      → confirm_loaded none user_id id payment_id r w
        ≡ store_confirmed none user_id id payment_id r'
            (record w { readings = suc (suc (suc w.readings)) })
  unfolding confirm_loaded
  confirm_loaded_step user_id id payment_id r r' w held done = rw (held, done)

  confirm_late :
      (user_id id payment_id : String) (r : Reservation) (w : World)
      → is_hold_expired (p.clock w.readings) r ≡ true
      → confirm_loaded none user_id id payment_id r w
        ≡ (err (hold_expired_error id), record w { readings = suc w.readings })
  unfolding confirm_loaded
  confirm_late user_id id payment_id r w late = rw late

  confirm_refused :
      (user_id id payment_id : String) (r : Reservation) (w : World) {e : Failure}
      → is_hold_expired (p.clock w.readings) r ≡ false
      → confirm_payment payment_id (p.clock (suc w.readings)) (p.clock (suc (suc w.readings))) r
        ≡ err e
      → confirm_loaded none user_id id payment_id r w
        ≡ (err e, record w { readings = suc (suc (suc w.readings)) })
  unfolding confirm_loaded
  confirm_refused user_id id payment_id r w held threw = rw (held, threw)

  -- What a confirmation of a row's reservation does, when it goes through.
  pub record IsConfirmed (user_id id payment_id : String) (row : ReservationRow) (w w' : World)
      : Type 0 where
    -- The row is the user's, pending, and in time at both readings of the clock.
    pub is_own : row.user_id ≡ user_id
    pub was_pending : row.status ≡ pending
    pub in_time : p.clock w.readings ≤ row.expires_at
    pub still_in_time : p.clock (suc w.readings) ≤ row.expires_at
    -- The row becomes confirmed at the third reading, with the next version; no other row changes.
    pub reservations_after :
        p.rows w'.reservations
        ≡ update
            (λ r. r.id == row.id && r.version + 1 == row.version + 1)
            (λ r. record r {
              status = confirmed;
              version = row.version + 1;
              confirmed_at = some (p.clock (suc (suc w.readings)));
              cancelled_at = row.cancelled_at;
            })
            (p.rows w.reservations)
    -- Its seats are confirmed, and no other.
    pub seat_holds_after :
        p.rows w'.seat_holds
        ≡ update (belongs_to id) (set_status SeatHoldStatus.confirmed) (p.rows w.seat_holds)
    -- The confirmation and the notification are queued, and nothing else.
    pub jobs_after :
        w'.jobs
        ≡ (w.jobs
            ++ Job.reservation_confirmed
                (DomainEvent.reservation_confirmed row.id row.user_id row.event_id payment_id)
              ∷ [])
          ++ notification_send "BOOKING_CONFIRMED" user_id id payment_id ∷ []

  -- An outcome that threw, or went through for a row.
  abbrev pub Outcome :
      (user_id id payment_id : String) (w : World) → Result ReservationStatus × World → Type 0
  Outcome user_id id payment_id w (err e, w') = IsUntouched w w'
  Outcome user_id id payment_id w (ok s, w') =
      (row : ReservationRow) × (row_at id w ≡ some row)
      × (s ≡ confirmed)
      × IsConfirmed user_id id payment_id row w w'

  stored-Outcome :
      (user_id id payment_id : String) (row : ReservationRow) (e : EventRow) (w : World)
      → row_at id w ≡ some row
      → row.user_id ≡ user_id
      → row.status ≡ pending
      → p.clock w.readings ≤ row.expires_at
      → p.clock (suc w.readings) ≤ row.expires_at
      → let w3 : World = record w { readings = suc (suc (suc w.readings)) } in
        let r = confirmed_as payment_id (p.clock (suc (suc w.readings))) (reservation_of w row e) in
        Outcome user_id id payment_id w (store_confirmed none user_id id payment_id r w3)
  unfolding to_persistence confirmed_as
  stored-Outcome user_id id payment_id row e w found own held in_time still =
      let w3 : World = record w { readings = suc (suc (suc w.readings)) } in
      let at = p.clock (suc (suc w.readings)) in
      let props = (reservation_of w row e).props in
      let r = confirmed_as payment_id at (fresh props) in
      let q = is_previous (to_persistence r) in
      let f = overwrite (to_persistence r) in
      elim (Bool-cases (is_stale r w3)) [
        | inl stale ↦ rw (store_confirmed_stale user_id id payment_id r w3 stale) (record {
          same_reservations =
              L.rows-update_many q f w.reservations
              ∙ update-count_zero q f (p.rows w.reservations) (ground arith);
          same_seat_holds = refl;
          same_jobs = refl;
        })
        | inr current ↦ rw (store_confirmed_found user_id id payment_id at props w3 current) (
          row,
          found,
          refl,
          record {
            is_own = own;
            was_pending = held;
            in_time = in_time;
            still_in_time = still;
            reservations_after = L.rows-update_many q f w.reservations;
            seat_holds_after =
                L.rows-update_many (belongs_to id) (set_status SeatHoldStatus.confirmed)
                  w.seat_holds;
            jobs_after = refl;
          },
        )
      ]

  loaded-Outcome :
      (user_id id payment_id : String) (row : ReservationRow) (e : EventRow) (w : World)
      → row_at id w ≡ some row
      → row.user_id ≡ user_id
      → Outcome user_id id payment_id w
          (confirm_loaded none user_id id payment_id (reservation_of w row e) w)
  unfolding is_hold_expired
  loaded-Outcome user_id id payment_id row e w found own =
      let r = reservation_of w row e in
      let now = p.clock (suc w.readings) in
      let at = p.clock (suc (suc w.readings)) in
      elim (Bool-cases (is_hold_expired (p.clock w.readings) r)) [
        | inl late ↦
            rw (confirm_late user_id id payment_id r w late)
              (record { same_reservations = refl; same_seat_holds = refl; same_jobs = refl })
        | inr held ↦ elim (Result-cases (confirm_payment payment_id now at r)) [
          | inl (e', threw) ↦
              rw (confirm_refused user_id id payment_id r w held threw)
                (record { same_reservations = refl; same_seat_holds = refl; same_jobs = refl })
          | inr (r', done) ↦
              let (was, is) = confirm_payment_ok payment_id now at r r' done in
              rw (confirm_loaded_step user_id id payment_id r r' w held done, ← is)
                (stored-Outcome user_id id payment_id row e w found own was (ground arith)
                  ((confirm_payment_iff payment_id now at r).0 (r', done)).1)
        ]
      ]

  confirm_after_load :
      (user_id id payment_id : String) (r : Reservation) (w : World)
      → load_own user_id id w ≡ (ok r, w)
      → confirm_reservation user_id id payment_id w ≡ confirm_loaded none user_id id payment_id r w
  unfolding confirm_reservation
  confirm_after_load user_id id payment_id r w h =
      bind_ok (load_own user_id id) (confirm_loaded none user_id id payment_id) h

  -- If the database and the queue take every write that it asks for, `confirmReservation` either
  -- throws by a test of its own or by that of the version, and then no reservation, no seat hold and
  -- no job has changed; or it finds the user's own row, pending and in time, confirms that row and its seats
  -- and nothing else, and queues the confirmation and the notification.
  pub confirm_reservation-Outcome :
      (user_id id payment_id : String) (w : World)
      → Outcome user_id id payment_id w (confirm_reservation user_id id payment_id w)
  unfolding confirm_reservation
  confirm_reservation-Outcome user_id id payment_id w = elim (load_own_cases L user_id id w) [
    | inl (e, threw) ↦
        rw (bind_err (load_own user_id id) (confirm_loaded none user_id id payment_id) threw)
          (record { same_reservations = refl; same_seat_holds = refl; same_jobs = refl })
    | inr (row, e, found, listed, own, loads) ↦
        rw (confirm_after_load user_id id payment_id _ w loads)
          (loaded-Outcome user_id id payment_id row e w found own)
  ]

  -- A confirmation goes through whenever the user's row is there with its event, is pending and is
  -- in time at both readings of the clock.
  pub confirm_reservation_succeeds :
      (user_id id payment_id : String) (row : ReservationRow) (e : EventRow) (w : World)
      → row_at id w ≡ some row
      → event_at row.event_id w ≡ some e
      → row.user_id ≡ user_id
      → row.status ≡ pending
      → p.clock w.readings ≤ row.expires_at
      → p.clock (suc w.readings) ≤ row.expires_at
      → (confirm_reservation user_id id payment_id w).0 ≡ ok confirmed
  unfolding is_hold_expired to_persistence confirmed_as
  confirm_reservation_succeeds user_id id payment_id row e w found listed own held in_time still =
      let w3 : World = record w { readings = suc (suc (suc w.readings)) } in
      let at = p.clock (suc (suc w.readings)) in
      let r = reservation_of w row e in
      let r' = confirmed_as payment_id at r in
      let (_, done) =
        (confirm_payment_iff payment_id (p.clock (suc w.readings)) at r).1 (held, still) in
      let (was, is) = confirm_payment_ok payment_id (p.clock (suc w.readings)) at r _ done in
      let current : is_stale r' w3 ≡ false = ground (
        arith,
        find-count (has_id id) (is_previous (to_persistence r')) (p.rows w.reservations) found,
        ==_refl row.id,
        ==_refl (row.version + 1),
      ) in
      rw (
        confirm_after_load user_id id payment_id r w
            (load_own_found L user_id id row e w found listed own),
        confirm_loaded_step user_id id payment_id r _ w (ground arith) done,
        ← is,
        store_confirmed_found user_id id payment_id at r.props w3 current,
      )
