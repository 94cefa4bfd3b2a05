-- ===== src/Booking/Repository.antt =====
-- src/modules/booking/booking.repository.ts: reservations and seat holds in the database, with
-- optimistic concurrency.
pub mod Concurrency
pub mod Stored
pub mod Unique
pub mod Seats
pub mod Occupied
use tickethub_backend.Common.{
  ℕ, ◌+◌, String, Bool, true, false, Option, none, some, List, [], ◌∷◌, ◌&&◌, ◌==◌, string_eq,
  nat_eq, any, map,
}
use tickethub_backend.Common.Number.{integer, pos}
use tickethub_backend.Platform.{Platform}
use tickethub_backend.Errors.{Failure, plain_error, conflict_error, unique_violation}
use tickethub_backend.World.{
  World, Action, ◌>>=◌, ◌>>◌, pure, lift, gets, modify, or_throw, throw_if, new_date, uuid,
}
use tickethub_backend.World.Rows.{
  ReservationRow, SeatHoldRow, SeatHoldStatus, held, confirmed, released, EventRow,
  same_reservation, seat_hold_clash,
}
use tickethub_backend.Booking.Money.{Money, from_cents}
use tickethub_backend.Booking.SeatHold.{SeatHold}
use tickethub_backend.Booking.Reservation.{
  Reservation, ReservationStatus, Persisted, to_persistence,
}

-- `status: { in: ['HELD', 'CONFIRMED'] }`
abbrev pub is_active_hold : SeatHoldStatus → Bool
is_active_hold held = true
is_active_hold confirmed = true
is_active_hold released = false

-- `status: { in: ['PENDING', 'CONFIRMED'] }`
abbrev pub is_active : ReservationStatus → Bool
is_active ReservationStatus.pending = true
is_active ReservationStatus.confirmed = true
is_active ReservationStatus.expired = false
is_active ReservationStatus.cancelled = false

module _ ⦃p : Platform⦄ where
  insert_reservation : ReservationRow → Action (Unit {0})
  insert_reservation row = do
    table ← gets (λ w. p.create same_reservation row w.reservations)
    table' ← or_throw table (unique_violation "reservations")
    modify (λ w. record w { reservations = table' })

  -- The rows of a reservation's seats; the database draws their identifiers.
  hold_rows : Persisted → List SeatHold → Action (List SeatHoldRow)
  unfolding uuid
  hold_rows r [] = pure []
  hold_rows r (sh ∷ shs) = do
    id ← uuid
    rest ← hold_rows r shs
    pure (
        record {
          id = id;
          reservation_id = r.id;
          event_id = r.event_id;
          section_name = sh.section_name;
          row = sh.row;
          seat = sh.seat;
          price_in_cents = sh.price_in_cents;
          status = held;
        }
        ∷ rest)

  insert_holds : List SeatHoldRow → Action (Unit {0})
  insert_holds rows = do
    table ← gets (λ w. p.create_many seat_hold_clash rows w.seat_holds)
    table' ← or_throw table (unique_violation "seat_holds")
    modify (λ w. record w { seat_holds = table' })

  abbrev pub row_of : Persisted → ℕ → ReservationRow
  row_of r now = record {
    id = r.id;
    user_id = r.user_id;
    event_id = r.event_id;
    status = r.status;
    total_price_in_cents = r.total_price_in_cents;
    version = r.version;
    expires_at = r.expires_at;
    confirmed_at = none;
    cancelled_at = none;
    created_at = now;
  }

  -- The body of the transaction of `createReservation`.
  write_reservation : Reservation → Action (Unit {0})
  unfolding insert_reservation hold_rows insert_holds new_date to_persistence
  write_reservation r = do
    let row = to_persistence r
    now ← new_date
    insert_reservation (row_of row now)
    rows ← hold_rows row r.props.seat_holds
    insert_holds rows

  unfoldable pub create_reservation : Reservation → Action (Unit {0})
  unfolding write_reservation
  create_reservation r = p.transaction (write_reservation r)

  -- `where: { id, version: version - 1 }`
  abbrev pub is_previous : Persisted → ReservationRow → Bool
  is_previous d r = r.id == d.id && r.version + 1 == d.version

  abbrev pub overwrite : Persisted → ReservationRow → ReservationRow
  overwrite d r = record r {
    status = d.status;
    version = d.version;
    confirmed_at = d.confirmed_at;
    cancelled_at = d.cancelled_at;
  }

  abbrev pub stale_error : Failure
  stale_error = conflict_error "Reservation was modified by another process. Please retry."

  update_row : Persisted → Action ℕ
  update_row d w =
      let (table, n) = p.update_many (is_previous d) (overwrite d) w.reservations in
      pure n (record w { reservations = table })

  unfoldable pub update_reservation : Reservation → Action (Unit {0})
  unfolding update_row to_persistence
  update_reservation r = do n ← update_row (to_persistence r); throw_if (n == 0) stale_error

  -- The holds of a loaded reservation end when it does.
  abbrev pub loaded_hold : ReservationRow → SeatHoldRow → SeatHold
  loaded_hold r sh = record {
    seat_hold_id = sh.id;
    event_id = sh.event_id;
    section_name = sh.section_name;
    row = sh.row;
    seat = sh.seat;
    price_in_cents = sh.price_in_cents;
    expires_at = r.expires_at;
  }

  abbrev pub loaded : ReservationRow → List SeatHoldRow → EventRow → Money → Reservation
  loaded r holds e total = record {
    props = record {
      id = r.id;
      user_id = r.user_id;
      event_id = r.event_id;
      status = r.status;
      seat_holds = map (loaded_hold r) holds;
      total_price = total;
      version = r.version;
      expires_at = r.expires_at;
      event_starts_at = e.starts_at;
      confirmed_at = r.confirmed_at;
      cancelled_at = r.cancelled_at;
      payment_id = none;
      created_at = r.created_at;
    };
    domain_events = [];
  }

  -- The relations that `findById` includes: the seat holds, and the event, which a foreign key
  -- guarantees.
  load : ReservationRow → Action Reservation
  unfolding from_cents
  load r = do
    holds ← gets (λ w. p.find_many (λ sh. sh.reservation_id == r.id) w.seat_holds)
    event ← gets (λ w. p.find_first (λ e. e.id == r.event_id) w.events)
    e ← or_throw event (plain_error "Inconsistent query result: field event is required")
    total ← lift (from_cents (integer (pos r.total_price_in_cents)) "TRY")
    pure (loaded r holds e total)

  load_found : Option ReservationRow → Action (Option Reservation)
  unfolding load
  load_found none = pure none
  load_found (some r) = do reservation ← load r; pure (some reservation)

  unfoldable pub find_by_id : String → Action (Option Reservation)
  unfolding load_found
  find_by_id id = do row ← gets (λ w. p.find_first (λ r. r.id == id) w.reservations); load_found row

  abbrev pub set_status : SeatHoldStatus → SeatHoldRow → SeatHoldRow
  set_status s r = record r { status = s }

  mark_seats : SeatHoldStatus → String → Action (Unit {0})
  mark_seats s id = modify (λ w. record w {
    seat_holds = (p.update_many (λ sh. sh.reservation_id == id) (set_status s) w.seat_holds).0;
  })

  unfoldable pub release_seats : String → Action (Unit {0})
  unfolding mark_seats
  release_seats id = mark_seats released id

  unfoldable pub confirm_seats : String → Action (Unit {0})
  unfolding mark_seats
  confirm_seats id = mark_seats confirmed id

  -- The filter on the relation of a seat hold to its reservation.
  abbrev pub is_held_by : String → SeatHoldRow → ReservationRow → Bool
  is_held_by user_id sh r = r.id == sh.reservation_id && r.user_id == user_id && is_active r.status

  abbrev pub counts_for : (user_id event_id : String) → World → SeatHoldRow → Bool
  counts_for user_id event_id w sh =
      sh.event_id == event_id
      && any (is_held_by user_id sh) (p.rows w.reservations)
      && is_active_hold sh.status

  unfoldable pub get_user_seat_count : (user_id event_id : String) → Action ℕ
  get_user_seat_count user_id event_id =
      gets (λ w. p.count_where (counts_for user_id event_id w) w.seat_holds)

  abbrev pub takes : (event_id section : String) (row seat : ℕ) → SeatHoldRow → Bool
  takes event_id section row seat sh =
      sh.event_id == event_id
      && sh.section_name == section
      && sh.row == row
      && sh.seat == seat
      && is_active_hold sh.status

  abbrev pub is_none : {A : Type 0} → Option A → Bool
  is_none none = true
  is_none (some _) = false

  unfoldable pub is_seat_available : (event_id section : String) (row seat : ℕ) → Action Bool
  is_seat_available event_id section row seat =
      gets (λ w. is_none (p.find_first (takes event_id section row seat) w.seat_holds))
