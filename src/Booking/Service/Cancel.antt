-- ===== src/Booking/Service/Cancel.antt =====
-- `cancelReservation` against the tables, when none of its writes is cut short: what it writes, and
-- that one whose own tests refuse it writes nothing.
use tickethub_backend.Common.{
  ℕ, suc, ◌+◌, ◌*◌, ◌≤◌, ◌≡◌, refl, ◌∙◌, ◌⊎◌, inl, inr, String, Bool, true, false, none, some, ◌==◌,
  string_eq, nat_eq, arith,
}
use tickethub_backend.Common.{[], ◌∷◌, ◌++◌, ◌&&◌, count, update, update-count_zero, Bool-cases}
use tickethub_backend.Platform.{Platform, IsLawful}
use tickethub_backend.Errors.{Result, ok, err, Failure, Result-cases}
use tickethub_backend.World.{World, enqueue, bind_ok, bind_err}
use tickethub_backend.World.Rows.{ReservationRow, EventRow, SeatHoldStatus, Job}
use tickethub_backend.Booking.Reservation.{
  Reservation, ReservationProps, ReservationStatus, pending, confirmed, cancelled, DomainEvent,
  to_persistence, cancel, cancelled_as, is_confirmed_status, pull_domain_events,
  cancellation_deadline_hours, ms_per_hour,
}
use tickethub_backend.Booking.Reservation.Commands.{cancel_from_ok, cancel_iff}
use tickethub_backend.Booking.Repository.{
  is_previous, overwrite, stale_error, release_seats, set_status,
}
use tickethub_backend.Booking.Repository.Concurrency.{update_reservation_lem}
use tickethub_backend.Booking.Repository.Stored.{belongs_to, row_at, reservation_of}
use tickethub_backend.Booking.Service.Loading.{load_own_cases}
use tickethub_backend.Booking.Service.Confirm.{IsUntouched}
use tickethub_backend.Booking.Service.{load_own, store_cancelled, cancel_loaded, cancel_reservation}

module _ ⦃p : Platform⦄ (L : IsLawful p) where
  abbrev fresh : ReservationProps → Reservation
  fresh props = record { props = props; domain_events = [] }

  abbrev written : Reservation → World → World
  written r w = record w {
    reservations =
        (p.update_many (is_previous (to_persistence r)) (overwrite (to_persistence r))
          w.reservations).0;
  }

  abbrev is_stale : Reservation → World → Bool
  is_stale r w = count (is_previous (to_persistence r)) (p.rows w.reservations) == 0

  store_cancelled_stale :
      (id : String) (r : Reservation) (w : World)
      → is_stale r w ≡ true
      → store_cancelled none id r w ≡ (err stale_error, written r w)
  unfolding store_cancelled
  store_cancelled_stale id r w h = ground (arith, update_reservation_lem L r w)

  store_cancelled_found :
      (id : String) (refund : Bool) (at : ℕ) (props : ReservationProps) (w : World)
      → let r = cancelled_as refund at (fresh props) in
        is_stale r w ≡ false
        → store_cancelled none id r w ≡ (
          ok cancelled,
          record (written r w) {
            seat_holds =
                (p.update_many (belongs_to id) (set_status SeatHoldStatus.released) w.seat_holds).0;
            jobs =
                w.jobs
                ++ Job.reservation_cancelled
                    (DomainEvent.reservation_cancelled props.id props.user_id props.event_id refund)
                  ∷ [];
          },
        )
  unfolding store_cancelled release_seats cancelled_as pull_domain_events enqueue
  store_cancelled_found id refund at props w h =
      ground (arith, update_reservation_lem L (cancelled_as refund at (fresh props)) w)

  pub cancel_loaded_step :
      (id : String) (r r' : Reservation) (w : World)
      → cancel (p.clock w.readings) (p.clock (suc w.readings)) r ≡ ok r'
      → cancel_loaded none id r w
        ≡ store_cancelled none id r' (record w { readings = suc (suc w.readings) })
  unfolding cancel_loaded
  cancel_loaded_step id r r' w done = rw done refl

  pub cancel_refused :
      (id : String) (r : Reservation) (w : World) {e : Failure}
      → cancel (p.clock w.readings) (p.clock (suc w.readings)) r ≡ err e
      → cancel_loaded none id r w ≡ (err e, record w { readings = suc (suc w.readings) })
  unfolding cancel_loaded
  cancel_refused id r w threw = rw threw refl

  -- What a cancellation of a row's reservation does, when it goes through.
  pub record IsCancelled (user_id id : String) (row : ReservationRow) (w w' : World) : Type 0 where
    pub is_own : row.user_id ≡ user_id
    -- The row is pending, or confirmed with 48 hours left before its event.
    pub event : EventRow
    pub was_open :
        (row.status ≡ pending)
        ⊎ ((row.status ≡ confirmed)
            × (p.clock w.readings + cancellation_deadline_hours * ms_per_hour ≤ event.starts_at))
    -- The row becomes cancelled at the second reading, with the next version; no other row changes.
    pub reservations_after :
        p.rows w'.reservations
        ≡ update
            (λ r. r.id == row.id && r.version + 1 == row.version + 1)
            (λ r. record r {
              status = cancelled;
              version = row.version + 1;
              confirmed_at = row.confirmed_at;
              cancelled_at = some (p.clock (suc w.readings));
            })
            (p.rows w.reservations)
    -- Its seats are released, and no other.
    pub seat_holds_after :
        p.rows w'.seat_holds
        ≡ update (belongs_to id) (set_status SeatHoldStatus.released) (p.rows w.seat_holds)
    -- The cancellation is queued, and asks for a refund exactly if the row was confirmed.
    pub jobs_after :
        w'.jobs
        ≡ w.jobs
          ++ Job.reservation_cancelled (
              DomainEvent.reservation_cancelled row.id row.user_id row.event_id
                (is_confirmed_status row.status))
            ∷ []

  abbrev pub Outcome : (user_id id : String) (w : World) → Result ReservationStatus × World → Type 0
  Outcome user_id id w (err e, w') = IsUntouched L w w'
  Outcome user_id id w (ok s, w') =
      (row : ReservationRow) × (row_at id w ≡ some row)
      × (s ≡ cancelled)
      × IsCancelled user_id id row w w'

  stored-Outcome :
      (user_id id : String) (row : ReservationRow) (e : EventRow) (w : World)
      → row_at id w ≡ some row
      → row.user_id ≡ user_id
      → (row.status ≡ pending)
        ⊎ ((row.status ≡ confirmed)
            × (p.clock w.readings + cancellation_deadline_hours * ms_per_hour ≤ e.starts_at))
      → let w2 : World = record w { readings = suc (suc w.readings) } in
        let r =
          cancelled_as
            (is_confirmed_status row.status)
            (p.clock (suc w.readings))
            (reservation_of w row e) in
        Outcome user_id id w (store_cancelled none id r w2)
  unfolding to_persistence cancelled_as
  stored-Outcome user_id id row e w found own was =
      let w2 : World = record w { readings = suc (suc w.readings) } in
      let at = p.clock (suc w.readings) in
      let props = (reservation_of w row e).props in
      let refund = is_confirmed_status row.status in
      let r = cancelled_as refund at (fresh props) in
      let q = is_previous (to_persistence r) in
      let f = overwrite (to_persistence r) in
      elim (Bool-cases (is_stale r w2)) [
        | inl stale ↦ rw (store_cancelled_stale id r w2 stale) (record {
          same_reservations =
              L.rows-update_many q f w.reservations
              ∙ update-count_zero q f (p.rows w.reservations) (ground arith);
          same_seat_holds = refl;
          same_jobs = refl;
        })
        | inr current ↦ rw (store_cancelled_found id refund at props w2 current) (
          row,
          found,
          refl,
          record {
            is_own = own;
            event = e;
            was_open = was;
            reservations_after = L.rows-update_many q f w.reservations;
            seat_holds_after =
                L.rows-update_many (belongs_to id) (set_status SeatHoldStatus.released)
                  w.seat_holds;
            jobs_after = refl;
          },
        )
      ]

  loaded-Outcome :
      (user_id id : String) (row : ReservationRow) (e : EventRow) (w : World)
      → row_at id w ≡ some row
      → row.user_id ≡ user_id
      → Outcome user_id id w (cancel_loaded none id (reservation_of w row e) w)
  loaded-Outcome user_id id row e w found own =
      let r = reservation_of w row e in
      let now = p.clock w.readings in
      let at = p.clock (suc w.readings) in
      elim (Result-cases (cancel now at r)) [
        | inl (e', threw) ↦
            rw (cancel_refused id r w threw)
              (record { same_reservations = refl; same_seat_holds = refl; same_jobs = refl })
        | inr (r', done) ↦
            let (_, is) = cancel_from_ok row.status now at r r' (unfold cancel in done) in
            rw (cancel_loaded_step id r r' w done, ← is)
              (stored-Outcome user_id id row e w found own ((cancel_iff now at r).0 (r', done)))
      ]

  pub cancel_after_load :
      (user_id id : String) (r : Reservation) (w : World)
      → load_own user_id id w ≡ (ok r, w)
      → cancel_reservation user_id id w ≡ cancel_loaded none id r w
  unfolding cancel_reservation
  cancel_after_load user_id id r w h = bind_ok (load_own user_id id) (cancel_loaded none id) h

  pub cancel_before_load :
      (user_id id : String) (w : World) {e : Failure}
      → load_own user_id id w ≡ (err e, w)
      → cancel_reservation user_id id w ≡ (err e, w)
  unfolding cancel_reservation
  cancel_before_load user_id id w h = bind_err (load_own user_id id) (cancel_loaded none id) h

  pub cancel_reservation-Outcome :
      (user_id id : String) (w : World) → Outcome user_id id w (cancel_reservation user_id id w)
  cancel_reservation-Outcome user_id id w = elim (load_own_cases L user_id id w) [
    | inl (e, threw) ↦
        rw (cancel_before_load user_id id w threw)
          (record { same_reservations = refl; same_seat_holds = refl; same_jobs = refl })
    | inr (row, e, found, listed, own, loads) ↦
        rw (cancel_after_load user_id id _ w loads) (loaded-Outcome user_id id row e w found own)
  ]
