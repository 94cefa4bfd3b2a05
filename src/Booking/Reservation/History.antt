-- ===== src/Booking/Reservation/History.antt =====
-- Any sequence of commands on a reservation, as the service, the worker and the user give them in
-- any order. A command that throws leaves the reservation as it was.
use tickethub_backend.Common.{
  ℕ, ◌≤◌, ◌≡◌, ◌≢◌, ◌⊎◌, inl, inr, refl, String, Bool, true, false, none,
}
use tickethub_backend.Common.{
  List, [], ◌∷◌, arith, length, count, count-snoc, length-snoc, Bool-cases, if◌then◌else◌,
}
use tickethub_backend.Errors.{Result, ok, err, Result-cases}
use tickethub_backend.Booking.Money.{Money}
use tickethub_backend.Booking.SeatHold.{SeatHold}
use tickethub_backend.Booking.Reservation.{
  Reservation, ReservationStatus, pending, confirmed, expired, cancelled, DomainEvent,
  reservation_confirmed, reservation_cancelled, create, confirm_payment, expire, cancel, is_pending,
  is_confirmed_status, confirmed_as, expired_as, cancelled_as,
}
use tickethub_backend.Booking.Reservation.Commands.{Allowed, cancel_from_ok, confirm_payment_ok}
use mathlib.Core.Option.{some-ne-none}
use mathlib.Core.Path.{subst}

pub data Command : Type 0 where
  pay : String → (now at : ℕ) → Command
  lapse : Command
  withdraw : (now at : ℕ) → Command

-- What is left of the reservation after a call that may have thrown.
abbrev pub after : Reservation → Result Reservation → Reservation
after r (ok r') = r'
after r (err e) = r

pub perform : Command → Reservation → Reservation
perform (pay payment_id now at) r = after r (confirm_payment payment_id now at r)
perform lapse r = expire r
perform (withdraw now at) r = after r (cancel now at r)

pub run : List Command → Reservation → Reservation
run [] r = r
run (c ∷ cs) r = run cs (perform c r)

abbrev pub is_payment : DomainEvent → Bool
is_payment (reservation_confirmed _ _ _ _) = true
is_payment _ = false

abbrev pub is_refund : DomainEvent → Bool
is_refund (reservation_cancelled _ _ _ refund_required) = refund_required
is_refund _ = false

-- The payments and the refunds that the events of a reservation announce.
abbrev pub payments : Reservation → ℕ
payments r = count is_payment r.domain_events

abbrev pub refunds : Reservation → ℕ
refunds r = count is_refund r.domain_events

-- What the fields and the events of a reservation say at each status.
abbrev Agrees : ReservationStatus → Reservation → Type 0
Agrees pending r =
    (r.props.confirmed_at ≡ none)
    × (r.props.payment_id ≡ none)
    × (r.props.cancelled_at ≡ none)
    × (payments r ≡ 0)
    × (refunds r ≡ 0)
Agrees confirmed r =
    (r.props.confirmed_at ≢ none)
    × (r.props.payment_id ≢ none)
    × (r.props.cancelled_at ≡ none)
    × (payments r ≡ 1)
    × (refunds r ≡ 0)
Agrees expired r =
    (r.props.confirmed_at ≡ none)
    × (r.props.payment_id ≡ none)
    × (r.props.cancelled_at ≡ none)
    × (payments r ≡ 0)
    × (refunds r ≡ 0)
Agrees cancelled r = (r.props.cancelled_at ≢ none) × (payments r ≤ 1) × (refunds r ≡ payments r)

pub record IsConsistent (r : Reservation) : Type 0 where
  pub agrees : Agrees r.props.status r
  pub versions : r.props.version ≡ length r.domain_events

-- A new reservation is consistent.
pub create-IsConsistent :
    (now : ℕ) (id user_id event_id : String) (seats : List SeatHold) (price : Money)
    (until starts : ℕ)
    → IsConsistent (create now id user_id event_id seats price until starts)
unfolding create
create-IsConsistent now id user_id event_id seats price until starts = record {
  agrees = (refl, refl, refl, refl, refl);
  versions = refl;
}

confirmed_as-IsConsistent :
    (payment_id : String) (at : ℕ) (r : Reservation)
    → r.props.status ≡ pending
    → IsConsistent r
    → IsConsistent (confirmed_as payment_id at r)
unfolding confirmed_as
confirmed_as-IsConsistent payment_id at r was h =
    let (c, p, k, paid, refunded) = subst (λ s. Agrees s r) was h.agrees in
    record {
      agrees = (
        some-ne-none at,
        some-ne-none payment_id,
        k,
        omega (arith, count-snoc is_payment r.domain_events),
        omega (arith, count-snoc is_refund r.domain_events),
      );
      versions = omega (arith, h.versions, length-snoc {0} r.domain_events);
    }

expired_as-IsConsistent :
    (r : Reservation) → r.props.status ≡ pending → IsConsistent r → IsConsistent (expired_as r)
unfolding expired_as
expired_as-IsConsistent r was h =
    let (c, p, k, paid, refunded) = subst (λ s. Agrees s r) was h.agrees in
    record {
      agrees = (
        c,
        p,
        k,
        omega (arith, count-snoc is_payment r.domain_events),
        omega (arith, count-snoc is_refund r.domain_events),
      );
      versions = omega (arith, h.versions, length-snoc {0} r.domain_events);
    }

-- The counts before a cancellation: one payment is refunded if the reservation was confirmed.
Agrees-counts :
    (s : ReservationStatus) (r : Reservation)
    → Allowed s cancelled
    → Agrees s r
    → (payments r ≡ (if is_confirmed_status s then 1 else 0)) × (refunds r ≡ 0)
Agrees-counts pending r a h = (h.3, h.4)
Agrees-counts confirmed r a h = (h.3, h.4)
Agrees-counts expired r a h = elim a [ ]
Agrees-counts cancelled r a h = elim a [ ]

cancelled_as-IsConsistent :
    (at : ℕ) (r : Reservation)
    → Allowed r.props.status cancelled
    → IsConsistent r
    → IsConsistent (cancelled_as (is_confirmed_status r.props.status) at r)
unfolding cancelled_as
cancelled_as-IsConsistent at r a h =
    let (paid, refunded) = Agrees-counts r.props.status r a h.agrees in
    record {
      agrees = (
        some-ne-none at,
        rw count-snoc (ground (arith, paid)),
        simp count-snoc (ground (arith, paid, refunded)),
      );
      versions = omega (arith, h.versions, length-snoc {0} r.domain_events);
    }

perform-IsConsistent : (c : Command) (r : Reservation) → IsConsistent r → IsConsistent (perform c r)
unfolding perform expire is_pending
perform-IsConsistent (pay payment_id now at) r h =
    elim (Result-cases (confirm_payment payment_id now at r)) [
      | inl (e, threw) ↦ rw threw h
      | inr (r', done) ↦
          let (was, is) = confirm_payment_ok payment_id now at r r' done in
          rw (done, ← is) (confirmed_as-IsConsistent payment_id at r was h)
    ]
perform-IsConsistent lapse r h = elim (Bool-cases (is_pending r)) [
  | inl held ↦ rw held (expired_as-IsConsistent r (ground arith) h)
  | inr other ↦ rw other h
]
perform-IsConsistent (withdraw now at) r h = elim (Result-cases (cancel now at r)) [
  | inl (e, threw) ↦ rw threw h
  | inr (r', done) ↦
      let (a, is) = cancel_from_ok r.props.status now at r r' (unfold cancel in done) in
      rw (done, ← is) (cancelled_as-IsConsistent at r a h)
]

Agrees-bounds :
    (s : ReservationStatus) (r : Reservation)
    → Agrees s r
    → (payments r ≤ 1) × (refunds r ≤ payments r)
Agrees-bounds pending r h = omega arith
Agrees-bounds confirmed r h = omega arith
Agrees-bounds expired r h = omega arith
Agrees-bounds cancelled r h = omega arith

-- After any sequence of commands on a consistent reservation, the version counts the events, the
-- fields agree with the status, at most one payment was announced, and no more refunds than
-- payments.
pub run-IsConsistent :
    (cs : List Command) (r : Reservation)
    → IsConsistent r
    → IsConsistent (run cs r)
      × ((payments (run cs r) ≤ 1) × (refunds (run cs r) ≤ payments (run cs r)))
unfolding run
run-IsConsistent [] r h = (h, Agrees-bounds r.props.status r h.agrees)
run-IsConsistent (c ∷ cs) r h = run-IsConsistent cs (perform c r) (perform-IsConsistent c r h)

abbrev pub IsFinal : Reservation → Type 0
IsFinal r = (r.props.status ≡ expired) ⊎ (r.props.status ≡ cancelled)

perform_final : (c : Command) (r : Reservation) → IsFinal r → perform c r ≡ r
unfolding perform confirm_payment expire cancel
perform_final (pay payment_id now at) r h = ground arith
perform_final lapse r h = ground arith
perform_final (withdraw now at) r h = ground arith

-- An expired or a cancelled reservation never changes again, whatever commands follow.
pub run_final : (cs : List Command) (r : Reservation) → IsFinal r → run cs r ≡ r
unfolding run
run_final [] r h = refl
run_final (c ∷ cs) r h = rw (perform_final c r h) (run_final cs r h)
