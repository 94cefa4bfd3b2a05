-- ===== src/Booking/Service/Stopped.antt =====
-- A confirmation that is cut short between its writes, which no transaction holds together: what it
-- leaves behind.
use tickethub_backend.Common.{
  ℕ, suc, ◌+◌, ◌≤◌, ◌≡◌, refl, ◌∙◌, String, Bool, false, Option, some, ◌==◌, string_eq, nat_eq,
  arith,
}
use tickethub_backend.Common.{[], ◌∷◌, ◌++◌, ◌&&◌, count, update, ==_refl, find-count}
use tickethub_backend.Platform.{Platform, IsLawful}
use tickethub_backend.Errors.{ok, err, Failure}
use tickethub_backend.World.{World, enqueue, bind_ok}
use tickethub_backend.World.Rows.{ReservationRow, EventRow, SeatHoldStatus, Job}
use tickethub_backend.Booking.Reservation.{
  Reservation, ReservationProps, pending, confirmed, DomainEvent, to_persistence, confirm_payment,
  confirmed_as, is_hold_expired, pull_domain_events,
}
use tickethub_backend.Booking.Reservation.Commands.{confirm_payment_ok, confirm_payment_iff}
use tickethub_backend.Booking.Repository.{is_previous, overwrite, confirm_seats, set_status}
use tickethub_backend.Booking.Repository.Concurrency.{update_reservation_lem}
use tickethub_backend.Booking.Repository.Stored.{
  has_id, belongs_to, row_at, event_at, reservation_of,
}
use tickethub_backend.Booking.Service.Confirm.{IsUntouched}
use tickethub_backend.Booking.Service.Loading.{load_own_found}
use tickethub_backend.Booking.Service.{
  Step, row_write, seats_write, event_job, notice_job, load_own, store_confirmed, confirm_loaded,
  confirm_until,
}

module _ ⦃p : Platform⦄ (L : IsLawful p) where
  abbrev fresh : ReservationProps → Reservation
  fresh props = record { props = props; domain_events = [] }

  abbrev is_stale : Reservation → World → Bool
  is_stale r w = count (is_previous (to_persistence r)) (p.rows w.reservations) == 0

  -- The row alone is confirmed, at the time that is given.
  abbrev pub RowConfirmed : ReservationRow → ℕ → World → World → Type 0
  RowConfirmed row at w w' =
      p.rows w'.reservations
      ≡ update (λ r. r.id == row.id && r.version + 1 == row.version + 1)
          (λ r. record r {
            status = confirmed;
            version = row.version + 1;
            confirmed_at = some at;
            cancelled_at = row.cancelled_at;
          })
          (p.rows w.reservations)

  -- What a confirmation leaves that is cut short at a step.
  abbrev pub ConfirmLeaves :
      Step → (id payment_id : String) → ReservationRow → ℕ → World → World → Type 0
  ConfirmLeaves row_write id payment_id row at w w' = IsUntouched L w w'
  ConfirmLeaves seats_write id payment_id row at w w' =
      RowConfirmed row at w w' × (p.rows w'.seat_holds ≡ p.rows w.seat_holds) × (w'.jobs ≡ w.jobs)
  ConfirmLeaves event_job id payment_id row at w w' =
      RowConfirmed row at w w'
      × (p.rows w'.seat_holds
          ≡ update (belongs_to id) (set_status SeatHoldStatus.confirmed) (p.rows w.seat_holds))
      × (w'.jobs ≡ w.jobs)
  ConfirmLeaves notice_job id payment_id row at w w' =
      RowConfirmed row at w w'
      × (p.rows w'.seat_holds
          ≡ update (belongs_to id) (set_status SeatHoldStatus.confirmed) (p.rows w.seat_holds))
      × (w'.jobs
          ≡ w.jobs
            ++ Job.reservation_confirmed
                (DomainEvent.reservation_confirmed row.id row.user_id row.event_id payment_id)
              ∷ [])

  abbrev written : Reservation → World → World
  written r w = record w {
    reservations =
        (p.update_many (is_previous (to_persistence r)) (overwrite (to_persistence r))
          w.reservations).0;
  }

  abbrev confirmed_seats : String → World → World
  confirmed_seats id w = record w {
    seat_holds =
        (p.update_many (belongs_to id) (set_status SeatHoldStatus.confirmed) w.seat_holds).0;
  }

  -- The state in which a confirmation is cut short.
  abbrev confirm_left :
      Step → (id payment_id : String) → ReservationProps → Reservation → World → World
  confirm_left row_write id payment_id props r w = w
  confirm_left seats_write id payment_id props r w = written r w
  confirm_left event_job id payment_id props r w = confirmed_seats id (written r w)
  confirm_left notice_job id payment_id props r w = record (confirmed_seats id (written r w)) {
    jobs =
        w.jobs
        ++ Job.reservation_confirmed
            (DomainEvent.reservation_confirmed props.id props.user_id props.event_id payment_id)
          ∷ [];
  }

  store_confirmed_stopped :
      (s : Step) (e : Failure) (user_id id payment_id : String) (at : ℕ) (props : ReservationProps)
      (w : World)
      → let r = confirmed_as payment_id at (fresh props) in
        is_stale r w ≡ false
        → store_confirmed (some (s, e)) user_id id payment_id r w
          ≡ (err e, confirm_left s id payment_id props r w)
  unfolding store_confirmed confirm_seats confirmed_as pull_domain_events enqueue
  store_confirmed_stopped row_write e user_id id payment_id at props w h = refl
  store_confirmed_stopped seats_write e user_id id payment_id at props w h =
      ground (arith, update_reservation_lem L (confirmed_as payment_id at (fresh props)) w)
  store_confirmed_stopped event_job e user_id id payment_id at props w h =
      ground (arith, update_reservation_lem L (confirmed_as payment_id at (fresh props)) w)
  store_confirmed_stopped notice_job e user_id id payment_id at props w h =
      ground (arith, update_reservation_lem L (confirmed_as payment_id at (fresh props)) w)

  confirm_reaches :
      (stop : Option (Step × Failure)) (user_id id payment_id : String) (r r' : Reservation)
      (w : World)
      → load_own user_id id w ≡ (ok r, w)
      → is_hold_expired (p.clock w.readings) r ≡ false
      → confirm_payment payment_id (p.clock (suc w.readings)) (p.clock (suc (suc w.readings))) r
        ≡ ok r'
      → confirm_until stop user_id id payment_id w
        ≡ store_confirmed stop user_id id payment_id r'
            (record w { readings = suc (suc (suc w.readings)) })
  unfolding confirm_until confirm_loaded
  confirm_reaches stop user_id id payment_id r r' w loads held done =
      bind_ok (load_own user_id id) (confirm_loaded stop user_id id payment_id) loads
      ∙ rw (held, done) refl

  confirm_left-Leaves :
      (s : Step) (id payment_id : String) (row : ReservationRow) (e : EventRow) (at : ℕ)
      (w w0 : World)
      → p.rows w0.reservations ≡ p.rows w.reservations
      → p.rows w0.seat_holds ≡ p.rows w.seat_holds
      → w0.jobs ≡ w.jobs
      → let r = reservation_of w row e in
        ConfirmLeaves s id payment_id row at w
          (confirm_left s id payment_id r.props (confirmed_as payment_id at r) w0)
  unfolding to_persistence confirmed_as
  confirm_left-Leaves row_write id payment_id row e at w w0 a b c = record {
    same_reservations = a;
    same_seat_holds = b;
    same_jobs = c;
  }
  confirm_left-Leaves seats_write id payment_id row e at w w0 a b c =
      rw (← a) (L.rows-update_many _ _ w0.reservations, b, c)
  confirm_left-Leaves event_job id payment_id row e at w w0 a b c =
      rw (← a, ← b)
        (L.rows-update_many _ _ w0.reservations, L.rows-update_many _ _ w0.seat_holds, c)
  confirm_left-Leaves notice_job id payment_id row e at w w0 a b c =
      rw (← a, ← b, ← c)
        (L.rows-update_many _ _ w0.reservations, L.rows-update_many _ _ w0.seat_holds, refl)

  -- A confirmation that would go through, and that is cut short before its n-th write, leaves the
  -- writes before it: before the first, nothing has changed; before the second, the row is CONFIRMED
  -- and its seats are still as they were; before the third, the seats are confirmed too and nothing
  -- is queued; before the fourth, the confirmation is queued and the notification is not.
  pub confirm_until-Leaves :
      (s : Step) (e : Failure) (user_id id payment_id : String) (row : ReservationRow)
      (event : EventRow) (w : World)
      → row_at id w ≡ some row
      → event_at row.event_id w ≡ some event
      → row.user_id ≡ user_id
      → row.status ≡ pending
      → p.clock w.readings ≤ row.expires_at
      → p.clock (suc w.readings) ≤ row.expires_at
      → let (res, w') = confirm_until (some (s, e)) user_id id payment_id w in
        (res ≡ err e) × ConfirmLeaves s id payment_id row (p.clock (suc (suc w.readings))) w w'
  unfolding is_hold_expired to_persistence confirmed_as
  confirm_until-Leaves s e user_id id payment_id row event w found listed own held in_time still =
      let w3 : World = record w { readings = suc (suc (suc w.readings)) } in
      let at = p.clock (suc (suc w.readings)) in
      let r = reservation_of w row event in
      let r' = confirmed_as payment_id at r in
      let (_, done) =
        (confirm_payment_iff payment_id (p.clock (suc w.readings)) at r).1 (held, still) in
      let (was, is) = confirm_payment_ok payment_id (p.clock (suc w.readings)) at r _ done in
      let current : is_stale r' w3 ≡ false = ground (
        arith,
        find-count (has_id id) (is_previous (to_persistence r')) (p.rows w.reservations) found,
        ==_refl row.id,
        ==_refl (row.version + 1),
      ) in
      rw
        (
          confirm_reaches (some (s, e)) user_id id payment_id r _ w
              (load_own_found L user_id id row event w found listed own) (ground arith) done,
          ← is,
          store_confirmed_stopped s e user_id id payment_id at r.props w3 current,
        )
        (refl, confirm_left-Leaves s id payment_id row event at w w3 refl refl refl)
