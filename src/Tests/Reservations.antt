-- ===== src/Tests/Reservations.antt =====
-- The commands of a reservation, at the reservation of the test world.
use tickethub_backend.Common.{◌+◌, ◌*◌, ◌≤◌, ◌≡◌, ◌↔◌, refl, ◌⊎◌, inl, List, [], ◌∷◌}
use tickethub_backend.Errors.{ok}
use tickethub_backend.Booking.Reservation.{
  Reservation, pending, confirmed, expired, create, confirm_payment, cancel,
  cancellation_deadline_hours, ms_per_hour,
}
use tickethub_backend.Booking.Reservation.Commands.{confirm_payment_iff, cancel_iff}
use tickethub_backend.Booking.Reservation.History.{
  Command, pay, lapse, withdraw, run, IsConsistent, create-IsConsistent, run-IsConsistent,
  run_final, payments, refunds,
}
use tickethub_backend.Tests.Worlds.{reservation_in, hold_of_seat, money}

confirm_payment_iff_example :
    let r = reservation_in pending in
    ((r' : Reservation) × (confirm_payment "pi" 1000000 1000001 r ≡ ok r'))
    ↔ ((r.props.status ≡ pending) × (1000000 ≤ r.props.expires_at))
confirm_payment_iff_example = confirm_payment_iff "pi" 1000000 1000001 (reservation_in pending)

cancel_iff_example :
    let r = reservation_in confirmed in
    ((r' : Reservation) × (cancel 1000000 1000001 r ≡ ok r')) ↔ (
      (r.props.status ≡ pending)
      ⊎ ((r.props.status ≡ confirmed)
          × (1000000 + cancellation_deadline_hours * ms_per_hour ≤ r.props.event_starts_at)))
cancel_iff_example = cancel_iff 1000000 1000001 (reservation_in confirmed)

abbrev commands : List Command
commands =
    pay "pi" 1000000 1000001 ∷ lapse ∷ withdraw 1000002 1000003 ∷ withdraw 1000004 1000005 ∷ []

abbrev started : Reservation
started = create 1000000 "r" "u" "e" (hold_of_seat ∷ []) money 2000000 1000000000000

run-IsConsistent_example :
    IsConsistent (run commands started)
    × ((payments (run commands started) ≤ 1)
        × (refunds (run commands started) ≤ payments (run commands started)))
run-IsConsistent_example =
    run-IsConsistent commands started
      (create-IsConsistent 1000000 "r" "u" "e" (hold_of_seat ∷ []) money 2000000 1000000000000)

run_final_example : run commands (reservation_in expired) ≡ reservation_in expired
run_final_example = run_final commands (reservation_in expired) (inl refl)
