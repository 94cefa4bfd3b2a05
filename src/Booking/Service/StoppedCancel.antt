-- ===== src/Booking/Service/StoppedCancel.antt =====
-- A cancellation that is cut short between its writes, which no transaction holds together: what it
-- leaves behind.
use tickethub_backend.Common.{
  ℕ, suc, ◌+◌, ◌*◌, ◌≤◌, ◌≡◌, refl, ◌∙◌, ◌⊎◌, String, Bool, false, Option, some, ◌==◌, string_eq,
  nat_eq, arith,
}
use tickethub_backend.Common.{[], ◌∷◌, ◌++◌, ◌&&◌, count, update, ==_refl, find-count}
use tickethub_backend.Platform.{Platform, IsLawful}
use tickethub_backend.Errors.{Result, ok, err, Failure}
use tickethub_backend.World.{World, enqueue, bind_ok}
use tickethub_backend.World.Rows.{ReservationRow, EventRow, SeatHoldStatus, Job}
use tickethub_backend.Booking.Reservation.{
  Reservation, ReservationProps, pending, confirmed, cancelled, DomainEvent, to_persistence, cancel,
  cancelled_as, is_confirmed_status, pull_domain_events, cancellation_deadline_hours, ms_per_hour,
}
use tickethub_backend.Booking.Reservation.Commands.{cancel_from_ok, cancel_iff}
use tickethub_backend.Booking.Repository.{is_previous, overwrite, release_seats, set_status}
use tickethub_backend.Booking.Repository.Concurrency.{update_reservation_lem}
use tickethub_backend.Booking.Repository.Stored.{
  has_id, belongs_to, row_at, event_at, reservation_of,
}
use tickethub_backend.Booking.Service.Confirm.{IsUntouched}
use tickethub_backend.Booking.Service.Loading.{load_own_found}
use tickethub_backend.Booking.Service.{
  Step, row_write, seats_write, event_job, notice_job, load_own, store_cancelled, cancel_loaded,
  cancel_until,
}

module _ ⦃p : Platform⦄ (L : IsLawful p) where
  abbrev fresh : ReservationProps → Reservation
  fresh props = record { props = props; domain_events = [] }

  abbrev is_stale : Reservation → World → Bool
  is_stale r w = count (is_previous (to_persistence r)) (p.rows w.reservations) == 0

  -- The row alone is cancelled, at the time that is given.
  abbrev pub RowCancelled : ReservationRow → ℕ → World → World → Type 0
  RowCancelled row at w w' =
      p.rows w'.reservations
      ≡ update (λ r. r.id == row.id && r.version + 1 == row.version + 1)
          (λ r. record r {
            status = cancelled;
            version = row.version + 1;
            confirmed_at = row.confirmed_at;
            cancelled_at = some at;
          })
          (p.rows w.reservations)

  abbrev pub SeatsReleased : String → World → World → Type 0
  SeatsReleased id w w' =
      p.rows w'.seat_holds
      ≡ update (belongs_to id) (set_status SeatHoldStatus.released) (p.rows w.seat_holds)

  -- What a cancellation leaves that is cut short at a step. It has no notification of its own, so
  -- nothing is cut short there.
  abbrev pub CancelLeaves : Step → (id : String) → ReservationRow → ℕ → World → World → Type 0
  CancelLeaves row_write id row at w w' = IsUntouched L w w'
  CancelLeaves seats_write id row at w w' =
      RowCancelled row at w w' × (p.rows w'.seat_holds ≡ p.rows w.seat_holds) × (w'.jobs ≡ w.jobs)
  CancelLeaves event_job id row at w w' =
      RowCancelled row at w w' × SeatsReleased id w w' × (w'.jobs ≡ w.jobs)
  CancelLeaves notice_job id row at w w' =
      RowCancelled row at w w'
      × SeatsReleased id w w'
      × (w'.jobs
          ≡ w.jobs
            ++ Job.reservation_cancelled (
                DomainEvent.reservation_cancelled row.id row.user_id row.event_id
                  (is_confirmed_status row.status))
              ∷ [])

  abbrev written : Reservation → World → World
  written r w = record w {
    reservations =
        (p.update_many (is_previous (to_persistence r)) (overwrite (to_persistence r))
          w.reservations).0;
  }

  abbrev released_seats : String → World → World
  released_seats id w = record w {
    seat_holds =
        (p.update_many (belongs_to id) (set_status SeatHoldStatus.released) w.seat_holds).0;
  }

  abbrev cancel_left : Step → (id : String) → Bool → ReservationProps → Reservation → World → World
  cancel_left row_write id refund props r w = w
  cancel_left seats_write id refund props r w = written r w
  cancel_left event_job id refund props r w = released_seats id (written r w)
  cancel_left notice_job id refund props r w = record (released_seats id (written r w)) {
    jobs =
        w.jobs
        ++ Job.reservation_cancelled
            (DomainEvent.reservation_cancelled props.id props.user_id props.event_id refund)
          ∷ [];
  }

  -- A cancellation ends with the failure at each step that it has.
  abbrev pub EndsAt : {A : Type 0} → Step → Failure → A → Result A → Type 0
  EndsAt notice_job e a res = res ≡ ok a
  EndsAt _ e a res = res ≡ err e

  abbrev end_of : {A : Type 0} → Step → Failure → A → Result A
  end_of notice_job e a = ok a
  end_of row_write e a = err e
  end_of seats_write e a = err e
  end_of event_job e a = err e

  store_cancelled_stopped :
      (s : Step) (e : Failure) (id : String) (refund : Bool) (at : ℕ) (props : ReservationProps)
      (w : World)
      → let r = cancelled_as refund at (fresh props) in
        is_stale r w ≡ false
        → store_cancelled (some (s, e)) id r w
          ≡ (end_of s e cancelled, cancel_left s id refund props r w)
  unfolding store_cancelled release_seats cancelled_as pull_domain_events enqueue
  store_cancelled_stopped row_write e id refund at props w h = refl
  store_cancelled_stopped seats_write e id refund at props w h =
      ground (arith, update_reservation_lem L (cancelled_as refund at (fresh props)) w)
  store_cancelled_stopped event_job e id refund at props w h =
      ground (arith, update_reservation_lem L (cancelled_as refund at (fresh props)) w)
  store_cancelled_stopped notice_job e id refund at props w h =
      ground (arith, update_reservation_lem L (cancelled_as refund at (fresh props)) w)

  cancel_reaches :
      (stop : Option (Step × Failure)) (user_id id : String) (r r' : Reservation) (w : World)
      → load_own user_id id w ≡ (ok r, w)
      → cancel (p.clock w.readings) (p.clock (suc w.readings)) r ≡ ok r'
      → cancel_until stop user_id id w
        ≡ store_cancelled stop id r' (record w { readings = suc (suc w.readings) })
  unfolding cancel_until cancel_loaded
  cancel_reaches stop user_id id r r' w loads done =
      bind_ok (load_own user_id id) (cancel_loaded stop id) loads ∙ rw done refl

  cancel_left-Leaves :
      (s : Step) (id : String) (row : ReservationRow) (e : EventRow) (at : ℕ) (w w0 : World)
      → p.rows w0.reservations ≡ p.rows w.reservations
      → p.rows w0.seat_holds ≡ p.rows w.seat_holds
      → w0.jobs ≡ w.jobs
      → let r = reservation_of w row e in
        let refund = is_confirmed_status row.status in
        CancelLeaves s id row at w (cancel_left s id refund r.props (cancelled_as refund at r) w0)
  unfolding to_persistence cancelled_as
  cancel_left-Leaves row_write id row e at w w0 a b c = record {
    same_reservations = a;
    same_seat_holds = b;
    same_jobs = c;
  }
  cancel_left-Leaves seats_write id row e at w w0 a b c =
      rw (← a) (L.rows-update_many _ _ w0.reservations, b, c)
  cancel_left-Leaves event_job id row e at w w0 a b c =
      rw (← a, ← b)
        (L.rows-update_many _ _ w0.reservations, L.rows-update_many _ _ w0.seat_holds, c)
  cancel_left-Leaves notice_job id row e at w w0 a b c =
      rw (← a, ← b, ← c)
        (L.rows-update_many _ _ w0.reservations, L.rows-update_many _ _ w0.seat_holds, refl)

  end_of-EndsAt : {A : Type 0} (s : Step) (e : Failure) (a : A) → EndsAt s e a (end_of s e a)
  end_of-EndsAt row_write e a = refl
  end_of-EndsAt seats_write e a = refl
  end_of-EndsAt event_job e a = refl
  end_of-EndsAt notice_job e a = refl

  -- A cancellation that would go through, and that is cut short before its n-th write, leaves the
  -- writes before it: before the first, nothing has changed; before the second, the row is CANCELLED
  -- and its seats are still taken; before the third, the seats are released too, and neither the
  -- cancellation nor its refund is queued. It has no fourth write: a cut there finds it done.
  pub cancel_until-Leaves :
      (s : Step) (e : Failure) (user_id id : String) (row : ReservationRow) (event : EventRow)
      (w : World)
      → row_at id w ≡ some row
      → event_at row.event_id w ≡ some event
      → row.user_id ≡ user_id
      → (row.status ≡ pending)
        ⊎ ((row.status ≡ confirmed)
            × (p.clock w.readings + cancellation_deadline_hours * ms_per_hour ≤ event.starts_at))
      → let (res, w') = cancel_until (some (s, e)) user_id id w in
        EndsAt s e cancelled res × CancelLeaves s id row (p.clock (suc w.readings)) w w'
  unfolding to_persistence cancelled_as
  cancel_until-Leaves s e user_id id row event w found listed own may =
      let w2 : World = record w { readings = suc (suc w.readings) } in
      let now = p.clock w.readings in
      let at = p.clock (suc w.readings) in
      let r = reservation_of w row event in
      let refund = is_confirmed_status row.status in
      let r' = cancelled_as refund at r in
      let (r'', done) = (cancel_iff now at r).1 may in
      let (_, is) = cancel_from_ok row.status now at r r'' (unfold cancel in done) in
      let current : is_stale r' w2 ≡ false = ground (
        arith,
        find-count (has_id id) (is_previous (to_persistence r')) (p.rows w.reservations) found,
        ==_refl row.id,
        ==_refl (row.version + 1),
      ) in
      rw
        (
          cancel_reaches (some (s, e)) user_id id r _ w
              (load_own_found L user_id id row event w found listed own) done,
          ← is,
          store_cancelled_stopped s e id refund at r.props w2 current,
        )
        (end_of-EndsAt s e cancelled, cancel_left-Leaves s id row event at w w2 refl refl refl)
