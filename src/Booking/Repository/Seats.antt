-- ===== src/Booking/Repository/Seats.antt =====
-- The seat holds of the database: no seat twice, and a transaction whole or not at all.
use tickethub_backend.Common.{
  ℕ, suc, ◌+◌, ◌≡◌, refl, ◌∙◌, ◌⊎◌, inl, inr, String, Bool, true, false, string_eq, nat_eq, arith,
}
use tickethub_backend.Common.{List, [], ◌∷◌, ◌++◌, any, update, length, Bool-cases}
use tickethub_backend.Platform.{Platform, IsLawful, insertable}
use tickethub_backend.Errors.{Failure, Result, ok, err, unique_violation}
use tickethub_backend.World.{World, new_date}
use tickethub_backend.World.Rows.{
  ReservationRow, SeatHoldRow, SeatHoldStatus, held, same_reservation, seat_hold_clash,
}
use tickethub_backend.Booking.SeatHold.{SeatHold}
use tickethub_backend.Booking.Reservation.{Reservation, Persisted, to_persistence}
use tickethub_backend.Booking.Repository.Unique.{insertable-append, insertable-update}
use tickethub_backend.Booking.Repository.{
  create_reservation, write_reservation, hold_rows, insert_reservation, insert_holds, row_of,
  release_seats, confirm_seats, set_status,
}

module _ ⦃p : Platform⦄ where
  -- No two rows of seat holds have one identifier, or one seat of one event.
  abbrev pub NoSeatTwice : World → Type 0
  NoSeatTwice w = insertable seat_hold_clash (p.rows w.seat_holds) [] ≡ true

  -- The rows that `hold_rows` makes, from the number of identifiers drawn before.
  abbrev pub new_rows : Persisted → ℕ → List SeatHold → List SeatHoldRow
  new_rows d n [] = []
  new_rows d n (sh ∷ shs) =
      record {
        id = p.uuid n;
        reservation_id = d.id;
        event_id = d.event_id;
        section_name = sh.section_name;
        row = sh.row;
        seat = sh.seat;
        price_in_cents = sh.price_in_cents;
        status = held;
      }
      ∷ new_rows d (suc n) shs

  hold_rows_lem :
      (d : Persisted) (shs : List SeatHold) (w : World)
      → hold_rows d shs w ≡ (ok (new_rows d w.drawn shs), record w { drawn = w.drawn + length shs })
  unfolding hold_rows
  hold_rows_lem d [] w = ground arith
  hold_rows_lem d (sh ∷ shs) w =
      ground (arith, hold_rows_lem d shs (record w { drawn = suc w.drawn }))

module _ ⦃p : Platform⦄ (L : IsLawful p) where
  insert_holds_cases :
      (rows : List SeatHoldRow) (w : World)
      → ((insertable seat_hold_clash rows (p.rows w.seat_holds) ≡ false)
          × (insert_holds rows w ≡ (err (unique_violation "seat_holds"), w)))
        ⊎ ((insertable seat_hold_clash rows (p.rows w.seat_holds) ≡ true)
            × ((t : p.Table SeatHoldRow) × (insert_holds rows w
                  ≡ (ok tt, record w { seat_holds = t }))
                × (p.rows t ≡ p.rows w.seat_holds ++ rows)))
  unfolding insert_holds
  insert_holds_cases rows w =
      elim (Bool-cases (insertable seat_hold_clash rows (p.rows w.seat_holds))) [
        | inl fresh ↦
            let (t, made, holds) = L.create_many_fresh seat_hold_clash rows w.seat_holds fresh in
            inr (fresh, (t, ground arith, holds))
        | inr clash ↦
            inl (clash, ground (arith, L.create_many_clash seat_hold_clash rows w.seat_holds))
      ]

  insert_reservation_cases :
      (row : ReservationRow) (w : World)
      → ((any (same_reservation row) (p.rows w.reservations) ≡ true)
          × (insert_reservation row w ≡ (err (unique_violation "reservations"), w)))
        ⊎ ((any (same_reservation row) (p.rows w.reservations) ≡ false)
            × ((t : p.Table ReservationRow) × (insert_reservation row w
                  ≡ (ok tt, record w { reservations = t }))
                × (p.rows t ≡ p.rows w.reservations ++ row ∷ [])))
  unfolding insert_reservation
  insert_reservation_cases row w =
      elim (Bool-cases (any (same_reservation row) (p.rows w.reservations))) [
        | inl clash ↦
            inl (clash, ground (arith, L.create_clash same_reservation row w.reservations))
        | inr fresh ↦
            let (t, made, holds) = L.create_fresh same_reservation row w.reservations fresh in
            inr (fresh, (t, ground arith, holds))
      ]

  -- The row that is written for a reservation at the time of the call.
  abbrev row_for : Reservation → World → ReservationRow
  row_for r w = row_of (to_persistence r) (p.clock w.readings)

  abbrev rows_for : Reservation → World → List SeatHoldRow
  rows_for r w = new_rows (to_persistence r) w.drawn r.props.seat_holds

  write_step :
      (r : Reservation) (w : World) (t : p.Table ReservationRow)
      → insert_reservation (row_for r w) (record w { readings = suc w.readings })
        ≡ (ok tt, record w { readings = suc w.readings; reservations = t })
      → write_reservation r w
        ≡ insert_holds (rows_for r w) (record w {
          readings = suc w.readings;
          reservations = t;
          drawn = w.drawn + length r.props.seat_holds;
        })
  unfolding write_reservation new_date
  write_step r w t h = ground (
    arith,
    hold_rows_lem (to_persistence r) r.props.seat_holds
        (record w { readings = suc w.readings; reservations = t }),
  )

  write_refused :
      (r : Reservation) (w : World) {e : Failure}
      → insert_reservation (row_for r w) (record w { readings = suc w.readings })
        ≡ (err e, record w { readings = suc w.readings })
      → write_reservation r w ≡ (err e, record w { readings = suc w.readings })
  unfolding write_reservation new_date
  write_refused r w h = ground arith

  -- What is there when `createReservation` has returned: one more reservation, and its seats.
  pub record IsStored (r : Reservation) (w w' : World) : Type 0 where
    pub reservations_after : p.rows w'.reservations ≡ p.rows w.reservations ++ row_for r w ∷ []
    pub seat_holds_after : p.rows w'.seat_holds ≡ p.rows w.seat_holds ++ rows_for r w
    pub no_clash : insertable seat_hold_clash (rows_for r w) (p.rows w.seat_holds) ≡ true

  abbrev pub CreateOutcome : Reservation → (w : World) → Result (Unit {0}) × World → Type 0
  CreateOutcome r w (err e, w') = w' ≡ w
  CreateOutcome r w (ok _, w') = IsStored r w w'

  created_ok :
      (r : Reservation) (w w' : World)
      → write_reservation r w ≡ (ok tt, w')
      → IsStored r w w'
      → CreateOutcome r w (create_reservation r w)
  unfolding create_reservation
  created_ok r w w' done stored = rw (L.transaction_ok (write_reservation r) w w' tt done) stored

  created_err :
      (r : Reservation) (w w' : World) {e : Failure}
      → write_reservation r w ≡ (err e, w')
      → create_reservation r w ≡ (err e, w)
  unfolding create_reservation
  created_err r w w' {e} threw = L.transaction_err (write_reservation r) w w' e threw

  write_cases :
      (r : Reservation) (w : World)
      → ((e : Failure) × (w' : World) × (write_reservation r w ≡ (err e, w')))
        ⊎ ((w' : World) × (write_reservation r w ≡ (ok tt, w')) × IsStored r w w')
  write_cases r w =
      elim (insert_reservation_cases (row_for r w) (record w { readings = suc w.readings })) [
        | inl (clash, threw) ↦ inl (_, _, write_refused r w threw)
        | inr (fresh, (t, made, rows)) ↦
            let v : World = record w {
              readings = suc w.readings;
              reservations = t;
              drawn = w.drawn + length r.props.seat_holds;
            } in
            elim (insert_holds_cases (rows_for r w) v) [
              | inl (clash, threw) ↦ inl (_, _, write_step r w t made ∙ threw)
              | inr (fits, (t', made', rows')) ↦ inr (
                _,
                write_step r w t made ∙ made',
                record { reservations_after = rows; seat_holds_after = rows'; no_clash = fits },
              )
            ]
      ]

  created_world :
      (r : Reservation) (w w' : World)
      → write_reservation r w ≡ (ok tt, w')
      → create_reservation r w ≡ (ok tt, w')
  unfolding create_reservation
  created_world r w w' done = L.transaction_ok (write_reservation r) w w' tt done

  -- The call throws and leaves the world as it was, or it has stored the reservation.
  pub create_reservation_cases :
      (r : Reservation) (w : World)
      → ((e : Failure) × (create_reservation r w ≡ (err e, w)))
        ⊎ IsStored r w (create_reservation r w).1
  create_reservation_cases r w = elim (write_cases r w) [
    | inl (e, w', threw) ↦ inl (e, created_err r w w' threw)
    | inr (w', done, stored) ↦ inr (rw (created_world r w w' done) stored)
  ]

  -- `createReservation` of the repository is whole or nothing: it throws and changes no table, or it
  -- adds the reservation's row and one row for each of its seats, none of which clashes with a row
  -- that was there.
  pub create_reservation-Outcome :
      (r : Reservation) (w : World) → CreateOutcome r w (create_reservation r w)
  create_reservation-Outcome r w = elim (write_cases r w) [
    | inl (e, w', threw) ↦ rw (created_err r w w' threw) refl
    | inr (w', done, stored) ↦ created_ok r w w' done stored
  ]

  NoSeatTwice-Outcome :
      (r : Reservation) (w : World) (o : Result (Unit {0}) × World)
      → NoSeatTwice w
      → CreateOutcome r w o
      → NoSeatTwice o.1
  NoSeatTwice-Outcome r w (err e, w') h same = rw same h
  NoSeatTwice-Outcome r w (ok _, w') h stored = ground (
    arith,
    insertable-append seat_hold_clash (p.rows w.seat_holds) (rows_for r w) [],
    stored.seat_holds_after,
    stored.no_clash,
  )

  -- No seat of an event is held twice, whoever asks: creating a reservation keeps that, however it
  -- ends.
  pub create_reservation-NoSeatTwice :
      (r : Reservation) (w : World) → NoSeatTwice w → NoSeatTwice (create_reservation r w).1
  create_reservation-NoSeatTwice r w h =
      NoSeatTwice-Outcome r w (create_reservation r w) h (create_reservation-Outcome r w)

  set_status-NoSeatTwice :
      (q : SeatHoldRow → Bool) (s : SeatHoldStatus) (rows : List SeatHoldRow)
      → insertable seat_hold_clash rows [] ≡ true
      → insertable seat_hold_clash (update q (set_status s) rows) [] ≡ true
  set_status-NoSeatTwice q s rows h =
      insertable-update seat_hold_clash q (set_status s) rows [] (λ a b. refl) (λ a b. refl) ∙ h

  -- Releasing or confirming the seats of a reservation keeps every seat to one row.
  pub mark_seats-NoSeatTwice :
      (id : String) (w : World)
      → NoSeatTwice w
      → NoSeatTwice (release_seats id w).1 × NoSeatTwice (confirm_seats id w).1
  unfolding release_seats confirm_seats
  mark_seats-NoSeatTwice id w h = (
    rw L.rows-update_many (set_status-NoSeatTwice _ _ (p.rows w.seat_holds) h),
    rw L.rows-update_many (set_status-NoSeatTwice _ _ (p.rows w.seat_holds) h),
  )
