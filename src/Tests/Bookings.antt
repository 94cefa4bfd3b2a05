-- ===== src/Tests/Bookings.antt =====
-- The booking service on the test world.
use tickethub_backend.Common.{◌≡◌, refl, [], ◌∷◌, none, some, inl, string_eq, nat_eq, arith}
use tickethub_backend.Errors.{Failure, plain_error, ok, err}
use tickethub_backend.Platform.Memory.{memory, memory-IsLawful}
use tickethub_backend.Booking.Reservation.{
  Seat, Reservation, pending, confirmed, cancelled, reservation_created,
}
use tickethub_backend.Booking.Repository.{update_reservation, stale_error, create_reservation}
use tickethub_backend.Booking.Repository.Concurrency.{update_reservation_race}
use tickethub_backend.Booking.Repository.Seats.{CreateOutcome, create_reservation-Outcome}
use tickethub_backend.Booking.Repository.Occupied.{create_reservation_occupied}
use tickethub_backend.Booking.Service.{confirm_reservation}
use tickethub_backend.Booking.Service.{seats_write, event_job, confirm_until, cancel_until}
use tickethub_backend.Booking.Service.Stopped.{ConfirmLeaves, confirm_until-Leaves}
use tickethub_backend.Booking.Service.StoppedCancel.{EndsAt, CancelLeaves, cancel_until-Leaves}
use tickethub_backend.Booking.Service.Confirm
use tickethub_backend.Booking.Service.Confirm.{
  confirm_reservation-Outcome, confirm_reservation_succeeds,
}
use tickethub_backend.Booking.Service.Cancel
use tickethub_backend.Tests.Worlds.{world, row, concert, reservation_in, stepped, forgetful, money}

confirm_reservation-Outcome_example :
    Confirm.Outcome memory-IsLawful "u" "r" "pi" world (confirm_reservation "u" "r" "pi" world)
confirm_reservation-Outcome_example = confirm_reservation-Outcome memory-IsLawful "u" "r" "pi" world

confirm_reservation_succeeds_example : (confirm_reservation "u" "r" "pi" world).0 ≡ ok confirmed
unfolding memory world string_eq
confirm_reservation_succeeds_example =
    confirm_reservation_succeeds memory-IsLawful "u" "r" "pi" row concert world refl refl refl refl
      (omega arith) (omega arith)

update_reservation_race_example :
    let w' = (update_reservation (stepped confirmed) world).1 in
    let (res, w'') = update_reservation (stepped cancelled) w' in
    (res ≡ err stale_error) × (memory.rows w''.reservations ≡ memory.rows w'.reservations)
unfolding memory world string_eq nat_eq update_reservation
update_reservation_race_example =
    update_reservation_race memory-IsLawful (stepped confirmed) (stepped cancelled) world
      (update_reservation (stepped confirmed) world).1 refl refl refl

create_reservation-Outcome_example :
    CreateOutcome memory-IsLawful
      (reservation_in pending)
      world
      (create_reservation (reservation_in pending) world)
create_reservation-Outcome_example =
    create_reservation-Outcome memory-IsLawful (reservation_in pending) world

create_reservation_occupied_example :
    (e : Failure) × (create_reservation (reservation_in pending) world ≡ (err e, world))
unfolding memory world string_eq nat_eq
create_reservation_occupied_example =
    create_reservation_occupied memory-IsLawful (reservation_in pending) world refl

abbrev free_seat : Seat
free_seat = record { section = "A"; row = 1; seat = 4 }

abbrev held : Reservation
held = record {
  props = record {
    id = "iid";
    user_id = "v";
    event_id = "e";
    status = pending;
    seat_holds =
        record {
          seat_hold_id = "id";
          event_id = "e";
          section_name = "A";
          row = 1;
          seat = 4;
          price_in_cents = 5000;
          expires_at = 1600001;
        }
        ∷ [];
    total_price = money;
    version = 1;
    expires_at = 1600001;
    event_starts_at = 1000000000000;
    confirmed_at = none;
    cancelled_at = none;
    payment_id = none;
    created_at = 1000005;
  };
  domain_events = reservation_created "iid" "v" "e" (free_seat ∷ []) 5000 ∷ [];
}

confirm_until-Leaves_example :
    let (res, w') = confirm_until (some (seats_write, plain_error "lost")) "u" "r" "pi" world in
    (res ≡ err (plain_error "lost"))
    × ConfirmLeaves memory-IsLawful seats_write "r" "pi" row (memory.clock 2) world w'
unfolding memory world string_eq
confirm_until-Leaves_example =
    confirm_until-Leaves memory-IsLawful seats_write (plain_error "lost") "u" "r" "pi" row concert
      world refl refl refl refl (omega arith) (omega arith)

cancel_until-Leaves_example :
    let (res, w') = cancel_until (some (event_job, plain_error "lost")) "u" "r" world in
    EndsAt memory-IsLawful event_job (plain_error "lost") cancelled res
    × CancelLeaves memory-IsLawful event_job "r" row (memory.clock 1) world w'
unfolding memory world string_eq
cancel_until-Leaves_example =
    cancel_until-Leaves memory-IsLawful event_job (plain_error "lost") "u" "r" row concert world
      refl refl refl (inl refl)
