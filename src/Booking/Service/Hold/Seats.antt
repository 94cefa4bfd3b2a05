-- ===== src/Booking/Service/Hold/Seats.antt =====
-- `createReservation` and the seats in the database: what a hold refuses, and what
-- one that goes through has found.
use tickethub_backend.Common.{
  ◌+◌, ◌<◌, ◌≡◌, refl, ◌⊎◌, inl, inr, String, Bool, true, false, none, some, string_eq, arith,
}
use tickethub_backend.Common.{List, [], ◌∷◌, any, find, count, length}
use tickethub_backend.Platform.{Platform, IsLawful}
use tickethub_backend.Errors.{Failure, ok, err, seat_unavailable_error}
use tickethub_backend.World.{World, Action}
use tickethub_backend.Shared.Cache.{Json}
use tickethub_backend.Pricing.Replay.{Price}
use tickethub_backend.Booking.Reservation.{Seat, Reservation, DomainEvent}
use tickethub_backend.Booking.Repository.{takes, counts_for, get_user_seat_count, is_seat_available}
use tickethub_backend.Booking.Service.Hold.{
  check_seats, hold, key_of, max_seats_per_booking, too_many_seats,
}

module _ ⦃p : Platform⦄ ⦃j : Json Price⦄ (L : IsLawful p) where
  -- A user who would have more than six seats of the event, counting the held and confirmed seats
  -- of the reservations that are pending or confirmed, is refused before any lock is taken, and
  -- nothing changes.
  pub hold_too_many :
      (on_created : DomainEvent → Action (Unit {0})) (user_id event_id : String) (seats : List Seat)
      (w : World)
      → max_seats_per_booking
        < count (counts_for user_id event_id w) (p.rows w.seat_holds) + length seats
      → (e : Failure) × (hold on_created user_id event_id seats w ≡ (err e, w))
  unfolding hold get_user_seat_count
  hold_too_many on_created user_id event_id seats w h = (
    too_many_seats (count (counts_for user_id event_id w) (p.rows w.seat_holds)),
    ground (arith, L.count_where-rows (counts_for user_id event_id w) w.seat_holds),
  )

  -- Some seat of the list has an active hold.
  abbrev pub is_taken : String → World → Seat → Bool
  is_taken event_id w s = any (takes event_id s.section s.row s.seat) (p.rows w.seat_holds)

  find-any :
      {R : Type 0} (q : R → Bool) (rows : List R)
      → ((find q rows ≡ none) × (any q rows ≡ false))
        ⊎ ((r : R) × (find q rows ≡ some r) × (any q rows ≡ true))
  find-any q [] = inl (refl, refl)
  find-any q (x ∷ xs) = ground (arith, find-any q xs)

  -- The check under the locks passes exactly when no seat that is asked for has a held or confirmed
  -- row, and it never changes anything.
  pub check_seats_cases :
      (event_id : String) (ss : List Seat) (w : World)
      → ((any (is_taken event_id w) ss ≡ false) × (check_seats event_id ss w ≡ (ok tt, w)))
        ⊎ ((any (is_taken event_id w) ss ≡ true)
            × ((key : String) × (check_seats event_id ss w
                  ≡ (err (seat_unavailable_error key), w))))
  unfolding check_seats is_seat_available
  check_seats_cases event_id [] w = inl (refl, refl)
  check_seats_cases event_id (s ∷ ss) w =
      let q = takes event_id s.section s.row s.seat in
      elim (find-any q (p.rows w.seat_holds)) [
        | inl (missing, free) ↦ elim (check_seats_cases event_id ss w) [
          | inl (all_free, passes) ↦
              inl (ground arith, ground (arith, L.find_first-rows q w.seat_holds))
          | inr (taken, (key, threw)) ↦
              inr (ground arith, (key, ground (arith, L.find_first-rows q w.seat_holds)))
        ]
        | inr (r, found, taken) ↦
            inr (ground arith, (key_of s, ground (arith, L.find_first-rows q w.seat_holds)))
      ]
