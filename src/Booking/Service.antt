-- ===== src/Booking/Service.antt =====
-- src/modules/booking/booking.service.ts: holding seats, confirming, cancelling and expiring.
-- The handlers on the sync event bus are an argument: the repository registers none. Logging is
-- left out.
pub mod Hold
pub mod Loading
pub mod Confirm
pub mod Cancel
pub mod Expire
pub mod Stopped
pub mod StoppedCancel
use tickethub_backend.Common.{
  ℕ, ◌+◌, String, ◌<>◌, Bool, true, false, Option, none, some, List, [], ◌∷◌, ◌&&◌, not, ◌==◌,
  string_eq, length, map, ltb, if◌then◌else◌,
}
use tickethub_backend.Common.Decimal.{decimal}
use tickethub_backend.Platform.{Platform}
use tickethub_backend.Errors.{
  Failure, validation_error, forbidden_error, not_found_error, hold_expired_error, Result, ok, err,
}
use tickethub_backend.World.{
  World, Action, ◌>>=◌, ◌>>◌, pure, throw, lift, gets, or_throw, throw_if, new_date, enqueue,
}
use tickethub_backend.World.Rows.{Job, notification_send}
use tickethub_backend.Shared.Cache.{Json}
use tickethub_backend.Pricing.Replay.{Price}
use tickethub_backend.Booking.Reservation
use tickethub_backend.Booking.Reservation.{
  Reservation, ReservationStatus, DomainEvent, confirm_payment, cancel, expire, is_hold_expired,
  is_pending, pull_domain_events,
}
use tickethub_backend.Booking.Repository.{
  find_by_id, update_reservation, confirm_seats, release_seats,
}

-- The writes of a confirmation and of a cancellation, in their order. Each is awaited on its own, and
-- no transaction holds them together, so a call may end at any of them: the database or the queue
-- rejects it, or the process dies.
pub data Step : Type 0 where
  row_write seats_write event_job notice_job : Step

module _ ⦃p : Platform⦄ where
  -- A step that is reached: nothing stops it, or it is the one that throws.
  abbrev pub reach : Step → Option (Step × Failure) → Action (Unit {0})
  reach s none = pure tt
  reach row_write (some (row_write, e)) = throw e
  reach seats_write (some (seats_write, e)) = throw e
  reach event_job (some (event_job, e)) = throw e
  reach notice_job (some (notice_job, e)) = throw e
  reach _ (some _) = pure tt

  -- `findById`, the not-found error and the owner's test, as three of the calls begin.
  unfoldable pub load_own : (user_id id : String) → Action Reservation
  load_own user_id id = do
    found ← find_by_id id
    r ← or_throw found (not_found_error "Reservation" (some id))
    throw_if (not (r.props.user_id == user_id)) (forbidden_error "This is not your reservation")
    pure r

  -- The events of `confirmReservation` that are passed on: only confirmations.
  unfoldable pub publish_confirmed :
      Option (Step × Failure)
      → (user_id id payment_id : String) → List DomainEvent
      → Action (Unit {0})
  unfolding enqueue
  publish_confirmed stop user_id id payment_id [] = pure tt
  publish_confirmed stop user_id id payment_id (DomainEvent.reservation_confirmed a b c d ∷ es) = do
    reach event_job stop
    enqueue (Job.reservation_confirmed (DomainEvent.reservation_confirmed a b c d))
    reach notice_job stop
    enqueue (notification_send "BOOKING_CONFIRMED" user_id id payment_id)
    publish_confirmed stop user_id id payment_id es
  publish_confirmed stop user_id id payment_id (DomainEvent.reservation_created a b c d e ∷ es) =
      publish_confirmed stop user_id id payment_id es
  publish_confirmed stop user_id id payment_id (DomainEvent.reservation_expired a b c ∷ es) =
      publish_confirmed stop user_id id payment_id es
  publish_confirmed stop user_id id payment_id (DomainEvent.reservation_cancelled a b c d ∷ es) =
      publish_confirmed stop user_id id payment_id es

  unfoldable pub publish_cancelled : Option (Step × Failure) → List DomainEvent → Action (Unit {0})
  unfolding enqueue
  publish_cancelled stop [] = pure tt
  publish_cancelled stop (DomainEvent.reservation_cancelled a b c d ∷ es) = do
    reach event_job stop
    enqueue (Job.reservation_cancelled (DomainEvent.reservation_cancelled a b c d))
    publish_cancelled stop es
  publish_cancelled stop (DomainEvent.reservation_created a b c d e ∷ es) =
      publish_cancelled stop es
  publish_cancelled stop (DomainEvent.reservation_confirmed a b c d ∷ es) =
      publish_cancelled stop es
  publish_cancelled stop (DomainEvent.reservation_expired a b c ∷ es) = publish_cancelled stop es

  -- The last part of `confirmReservation`, once the entity has accepted the payment; `stop` says at
  -- which write, if any, the call is cut short.
  unfoldable pub store_confirmed :
      Option (Step × Failure)
      → (user_id id payment_id : String) → Reservation
      → Action ReservationStatus
  unfolding publish_confirmed
  store_confirmed stop user_id id payment_id r = do
    reach row_write stop
    update_reservation r
    reach seats_write stop
    confirm_seats id
    let (events, _) = pull_domain_events r
    publish_confirmed stop user_id id payment_id events
    pure ReservationStatus.confirmed

  -- `confirmReservation` after the reservation is loaded: the service tests the hold, the entity
  -- tests it again, and each reads the clock.
  unfoldable pub confirm_loaded :
      Option (Step × Failure)
      → (user_id id payment_id : String) → Reservation
      → Action ReservationStatus
  unfolding new_date
  confirm_loaded stop user_id id payment_id r = do
    first ← new_date
    throw_if (is_hold_expired first r) (hold_expired_error id)
    now ← new_date
    at ← new_date
    r' ← lift (confirm_payment payment_id now at r)
    store_confirmed stop user_id id payment_id r'

  unfoldable pub confirm_until :
      Option (Step × Failure) → (user_id id payment_id : String) → Action ReservationStatus
  confirm_until stop user_id id payment_id = do
    r ← load_own user_id id
    confirm_loaded stop user_id id payment_id r

  -- `confirmReservation`, when no write is cut short.
  unfoldable pub confirm_reservation : (user_id id payment_id : String) → Action ReservationStatus
  unfolding confirm_until
  confirm_reservation user_id id payment_id = confirm_until none user_id id payment_id

  unfoldable pub store_cancelled :
      Option (Step × Failure) → String → Reservation → Action ReservationStatus
  unfolding publish_cancelled
  store_cancelled stop id r = do
    reach row_write stop
    update_reservation r
    reach seats_write stop
    release_seats id
    let (events, _) = pull_domain_events r
    publish_cancelled stop events
    pure ReservationStatus.cancelled

  unfoldable pub cancel_loaded :
      Option (Step × Failure) → String → Reservation → Action ReservationStatus
  unfolding new_date
  cancel_loaded stop id r = do
    now ← new_date
    at ← new_date
    r' ← lift (cancel now at r)
    store_cancelled stop id r'

  unfoldable pub cancel_until :
      Option (Step × Failure) → (user_id id : String) → Action ReservationStatus
  cancel_until stop user_id id = do r ← load_own user_id id; cancel_loaded stop id r

  -- `cancelReservation`, when no write is cut short.
  unfoldable pub cancel_reservation : (user_id id : String) → Action ReservationStatus
  unfolding cancel_until
  cancel_reservation user_id id = cancel_until none user_id id

  unfoldable pub store_expired : String → Reservation → Action (Unit {0})
  store_expired id r = do update_reservation r; release_seats id

  unfoldable pub expire_loaded : String → Option Reservation → Action (Unit {0})
  expire_loaded id none = pure tt
  expire_loaded id (some r) = if is_pending r then store_expired id (expire r) else pure tt

  -- `expireReservation`, the job of the worker.
  unfoldable pub expire_reservation : String → Action (Unit {0})
  expire_reservation id = do found ← find_by_id id; expire_loaded id found

  -- `getReservation`, before its fields are formatted.
  unfoldable pub get_reservation : (user_id id : String) → Action Reservation
  get_reservation user_id id = load_own user_id id
