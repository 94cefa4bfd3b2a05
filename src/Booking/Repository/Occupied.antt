-- ===== src/Booking/Repository/Occupied.antt =====
-- What the unique constraint on seats does to seats that were released.
use tickethub_backend.Common.{
  ℕ, suc, ◌≡◌, refl, inl, inr, String, Bool, true, false, ◌&&◌, ◌==◌, string_eq, nat_eq, arith,
}
use tickethub_backend.Common.{List, [], ◌∷◌, ◌++◌, any, Bool-cases}
use tickethub_backend.Platform.{Platform, IsLawful, insertable}
use tickethub_backend.Errors.{Failure, err}
use tickethub_backend.World.{World}
use tickethub_backend.World.Rows.{SeatHoldRow, held, seat_hold_clash}
use tickethub_backend.Booking.SeatHold.{SeatHold}
use tickethub_backend.Booking.Reservation.{Reservation, Persisted, to_persistence}
use tickethub_backend.Booking.Repository.Seats.{new_rows, create_reservation_cases}
use tickethub_backend.Booking.Repository.{create_reservation}

module _ ⦃p : Platform⦄ (L : IsLawful p) where
  -- A row for a seat, whatever its status, against a hold that is asked for.
  abbrev pub occupies : String → SeatHold → SeatHoldRow → Bool
  occupies event_id sh o =
      event_id == o.event_id
      && sh.section_name == o.section_name
      && sh.row == o.row
      && sh.seat == o.seat

  any-occupied :
      (r : SeatHoldRow) (sh : SeatHold) (rows : List SeatHoldRow)
      → sh.section_name ≡ r.section_name
      → sh.row ≡ r.row
      → sh.seat ≡ r.seat
      → any (occupies r.event_id sh) rows ≡ true
      → any (seat_hold_clash r) rows ≡ true
  any-occupied r sh [] a b c h = cc
  any-occupied r sh (o ∷ rows) a b c h = ground (arith, any-occupied r sh rows a b c)

  any-later :
      (q : SeatHoldRow → Bool) (rows : List SeatHoldRow) (r : SeatHoldRow)
      → any q rows ≡ true
      → any q (rows ++ r ∷ []) ≡ true
  any-later q [] r h = cc
  any-later q (x ∷ xs) r h = ground (arith, any-later q xs r)

  all-later :
      (event_id : String) (shs : List SeatHold) (rows : List SeatHoldRow) (r : SeatHoldRow)
      → any (λ sh. any (occupies event_id sh) rows) shs ≡ true
      → any (λ sh. any (occupies event_id sh) (rows ++ r ∷ [])) shs ≡ true
  all-later event_id [] rows r h = cc
  all-later event_id (sh ∷ shs) rows r h =
      ground (arith, all-later event_id shs rows r, any-later (occupies event_id sh) rows r)

  new_row : Persisted → ℕ → SeatHold → SeatHoldRow
  new_row d n sh = record {
    id = p.uuid n;
    reservation_id = d.id;
    event_id = d.event_id;
    section_name = sh.section_name;
    row = sh.row;
    seat = sh.seat;
    price_in_cents = sh.price_in_cents;
    status = held;
  }

  clash-occupied :
      (d : Persisted) (n : ℕ) (shs : List SeatHold) (rows : List SeatHoldRow)
      → any (λ sh. any (occupies d.event_id sh) rows) shs ≡ true
      → insertable seat_hold_clash (new_rows d n shs) rows ≡ false
  unfolding new_row
  clash-occupied d n [] rows h = cc
  clash-occupied d n (sh ∷ shs) rows h = elim (Bool-cases (any (occupies d.event_id sh) rows)) [
    | inl taken ↦ rw (any-occupied (new_row d n sh) sh rows refl refl refl taken) refl
    | inr vacant ↦ ground (
      arith,
      clash-occupied d (suc n) shs (rows ++ new_row d n sh ∷ [])
          (all-later d.event_id shs rows (new_row d n sh) (ground arith)),
    )
  ]

  -- A seat that has a row for the event can never be reserved again: whatever the status of the
  -- row, RELEASED too, which `isSeatAvailable` takes for available, `createReservation` throws and
  -- changes nothing.
  pub create_reservation_occupied :
      (r : Reservation) (w : World)
      → any (λ sh. any (occupies r.props.event_id sh) (p.rows w.seat_holds)) r.props.seat_holds
        ≡ true
      → (e : Failure) × (create_reservation r w ≡ (err e, w))
  unfolding to_persistence
  create_reservation_occupied r w h = elim (create_reservation_cases L r w) [
    | inl threw ↦ threw
    | inr stored ↦
        let clash =
          clash-occupied (to_persistence r) w.drawn r.props.seat_holds (p.rows w.seat_holds) h in
        let no_clash = stored.no_clash in cc
  ]
