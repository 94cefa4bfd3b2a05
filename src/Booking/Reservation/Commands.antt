-- ===== src/Booking/Reservation/Commands.antt =====
-- What each command of a reservation does, on every branch.
use tickethub_backend.Common.{
  ℕ, ◌+◌, ◌*◌, ◌≤◌, ◌≡◌, ◌≢◌, ◌↔◌, ◌⊎◌, String, Bool, true, false, [], ◌∷◌, ◌++◌, refl, inl, inr,
  arith, length, length-snoc, Bool-cases,
}
use tickethub_backend.Errors.{ok}
use tickethub_backend.Booking.Reservation.{
  Reservation, ReservationStatus, pending, confirmed, expired, cancelled, confirm_payment, expire,
  cancel, is_confirmed_status, reservation_cancelled, is_confirmed, confirmed_as, cancelled_as,
  expired_as, cancel_from, is_pending, cancellation_deadline_hours, ms_per_hour,
}

-- The transitions that the entity's documentation allows.
pub data Allowed : ReservationStatus → ReservationStatus → Type 0 where
  pay : Allowed pending confirmed
  lapse : Allowed pending expired
  withdraw : Allowed pending cancelled
  refund : Allowed confirmed cancelled

-- A payment is accepted exactly when the reservation is pending and its hold has not run out at
-- the time of the check, whatever the payment id: it is not tested, and may be empty.
pub confirm_payment_iff :
    (payment_id : String) (now at : ℕ) (r : Reservation)
    → ((r' : Reservation) × (confirm_payment payment_id now at r ≡ ok r'))
      ↔ ((r.props.status ≡ pending) × (now ≤ r.props.expires_at))
unfolding confirm_payment
confirm_payment_iff payment_id now at r =
    (λ h. ground arith, λ h. (confirmed_as payment_id at r, ground arith))

-- A cancellation goes through exactly when the reservation is pending, or confirmed with at least
-- 48 hours left before the event.
pub cancel_iff :
    (now at : ℕ) (r : Reservation)
    → ((r' : Reservation) × (cancel now at r ≡ ok r')) ↔ (
        (r.props.status ≡ pending)
        ⊎ ((r.props.status ≡ confirmed)
            × (now + cancellation_deadline_hours * ms_per_hour ≤ r.props.event_starts_at)))
unfolding cancel
cancel_iff now at r = (
  λ h. ground arith,
  λ h. elim h [
    | inl held ↦ (cancelled_as false at r, ground arith)
    | inr (paid, early) ↦ (cancelled_as true at r, ground arith)
  ],
)

-- What a successful command keeps and what it counts: who holds which seats of which event at
-- what price and until when, and one more version and one more event for the one transition.
pub record IsTransition (r r' : Reservation) : Type 0 where
  pub allowed : Allowed r.props.status r'.props.status
  pub same_id : r'.props.id ≡ r.props.id
  pub same_user : r'.props.user_id ≡ r.props.user_id
  pub same_event : r'.props.event_id ≡ r.props.event_id
  pub same_seats : r'.props.seat_holds ≡ r.props.seat_holds
  pub same_price : r'.props.total_price ≡ r.props.total_price
  pub same_expiry : r'.props.expires_at ≡ r.props.expires_at
  pub next_version : r'.props.version ≡ r.props.version + 1
  pub one_event : length r'.domain_events ≡ length r.domain_events + 1

Allowed_at : {s t s' t' : ReservationStatus} → s ≡ s' → t ≡ t' → Allowed s' t' → Allowed s t
Allowed_at p q a = rw (p, q) a

confirmed_as-IsTransition :
    (payment_id : String) (at : ℕ) (r : Reservation)
    → r.props.status ≡ pending
    → IsTransition r (confirmed_as payment_id at r)
unfolding confirmed_as
confirmed_as-IsTransition payment_id at r h = record {
  allowed = Allowed_at h refl pay;
  same_id = refl;
  same_user = refl;
  same_event = refl;
  same_seats = refl;
  same_price = refl;
  same_expiry = refl;
  next_version = refl;
  one_event = length-snoc _ _;
}

cancelled_as-IsTransition :
    (refund_required : Bool) (at : ℕ) (r : Reservation)
    → Allowed r.props.status cancelled
    → IsTransition r (cancelled_as refund_required at r)
unfolding cancelled_as
cancelled_as-IsTransition refund_required at r a = record {
  allowed = a;
  same_id = refl;
  same_user = refl;
  same_event = refl;
  same_seats = refl;
  same_price = refl;
  same_expiry = refl;
  next_version = refl;
  one_event = length-snoc _ _;
}

expired_as-IsTransition :
    (r : Reservation) → r.props.status ≡ pending → IsTransition r (expired_as r)
unfolding expired_as
expired_as-IsTransition r h = record {
  allowed = Allowed_at h refl lapse;
  same_id = refl;
  same_user = refl;
  same_event = refl;
  same_seats = refl;
  same_price = refl;
  same_expiry = refl;
  next_version = refl;
  one_event = length-snoc _ _;
}

pub cancel_from_ok :
    (s : ReservationStatus) (now at : ℕ) (r r' : Reservation)
    → cancel_from s now at r ≡ ok r'
    → Allowed s cancelled × (cancelled_as (is_confirmed_status s) at r ≡ r')
unfolding cancel_from
cancel_from_ok pending now at r r' h = (withdraw, ground arith)
cancel_from_ok confirmed now at r r' h = (refund, ground arith)
cancel_from_ok expired now at r r' h = cc
cancel_from_ok cancelled now at r r' h = cc

pub confirm_payment_ok :
    (payment_id : String) (now at : ℕ) (r r' : Reservation)
    → confirm_payment payment_id now at r ≡ ok r'
    → (r.props.status ≡ pending) × (confirmed_as payment_id at r ≡ r')
unfolding confirm_payment
confirm_payment_ok payment_id now at r r' h = (ground arith, ground arith)

-- A successful payment is an allowed transition to CONFIRMED.
pub confirm_payment-IsTransition :
    (payment_id : String) (now at : ℕ) (r r' : Reservation)
    → confirm_payment payment_id now at r ≡ ok r'
    → IsTransition r r' × (r'.props.status ≡ confirmed)
unfolding confirmed_as
confirm_payment-IsTransition payment_id now at r r' h =
    let (was, is) = confirm_payment_ok payment_id now at r r' h in
    rw (← is) (confirmed_as-IsTransition payment_id at r was, refl)

-- A successful cancellation is an allowed transition to CANCELLED, and its event asks for a refund
-- exactly when the reservation was CONFIRMED.
pub cancel-IsTransition :
    (now at : ℕ) (r r' : Reservation)
    → cancel now at r ≡ ok r'
    → IsTransition r r'
      × (r'.props.status ≡ cancelled)
      × (r'.domain_events
          ≡ r.domain_events
            ++ reservation_cancelled r.props.id r.props.user_id r.props.event_id (is_confirmed r)
              ∷ [])
unfolding cancel is_confirmed
cancel-IsTransition now at r r' h =
    let (a, is) = cancel_from_ok r.props.status now at r r' h in
    rw (← is) (cancelled_as-IsTransition _ at r a, refl, refl)

-- `expire` is an allowed transition to EXPIRED, or the reservation was not pending and nothing
-- has changed.
pub expire_cases :
    (r : Reservation)
    → (IsTransition r (expire r) × ((expire r).props.status ≡ expired))
      ⊎ ((r.props.status ≢ pending) × (expire r ≡ r))
unfolding expire
expire_cases r = elim (Bool-cases (is_pending r)) [
  | inl held ↦ inl (rw (held, expire) (expired_as-IsTransition r (ground arith), refl))
  | inr done ↦ inr (ground arith, ground arith)
]
