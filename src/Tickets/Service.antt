-- ===== src/Tickets/Service.antt =====
-- src/modules/tickets/tickets.service.ts: issuing, reading and validating tickets. The QR codec,
-- the printing of times and the drawing of QR images are arguments.
pub mod Issue
pub mod Scans
pub mod Cancelled
use tickethub_backend.Common.{ℕ, String, ◌<>◌, Bool, true, false, Option, none, some, not}
use tickethub_backend.Common.{List, [], ◌∷◌, ◌==◌, string_eq, if◌then◌else◌}
use tickethub_backend.Platform.{Platform}
use tickethub_backend.Errors.{not_found_error, validation_error, plain_error, unique_violation, err}
use tickethub_backend.World.{
  World, Action, ◌>>=◌, ◌>>◌, pure, lift, gets, modify, or_throw, throw_if, new_date, uuid,
}
use tickethub_backend.World.Rows.{
  ReservationRow, SeatHoldRow, TicketRow, TicketStatus, valid, used, revoked, ticket_clash,
}
use tickethub_backend.Booking.Reservation.{Seat}
use tickethub_backend.Tickets.Qr.{QrPayloadData, QrCodec, generate_payload, verify_payload}

-- What `validateTicket` answers.
pub record Validation : Type 0 where
  pub is_valid : Bool
  pub ticket_id : Option String
  pub message : String
  pub seat_info : Option Seat

abbrev pub refused : Option String → String → Validation
refused id text = record { is_valid = false; ticket_id = id; message = text; seat_info = none }

abbrev pub admitted : TicketRow → SeatHoldRow → Validation
admitted t sh = record {
  is_valid = true;
  ticket_id = some t.id;
  message = "Valid ticket — welcome!";
  seat_info = some (record { section = sh.section_name; row = sh.row; seat = sh.seat });
}

-- `ticket.usedAt?.toISOString()` in a template literal.
abbrev pub iso_or_undefined : (ℕ → String) → Option ℕ → String
iso_or_undefined iso none = "undefined"
iso_or_undefined iso (some at) = iso at

module _ ⦃p : Platform⦄ where
  -- The row that is written for a seat.
  abbrev pub ticket_row : ReservationRow → SeatHoldRow → (id payload : String) → ℕ → TicketRow
  ticket_row r sh id payload now = record {
    id = id;
    reservation_id = r.id;
    seat_hold_id = sh.id;
    user_id = r.user_id;
    qr_payload = payload;
    status = valid;
    used_at = none;
    created_at = now;
  }

  abbrev pub payload_data : ReservationRow → SeatHoldRow → QrPayloadData
  payload_data r sh = record {
    ticket_id = sh.id;
    event_id = r.event_id;
    section_name = sh.section_name;
    row = sh.row;
    seat = sh.seat;
  }

  insert_ticket : TicketRow → Action (Unit {0})
  insert_ticket row = do
    table ← gets (λ w. p.create ticket_clash row w.tickets)
    table' ← or_throw table (unique_violation "tickets")
    modify (λ w. record w { tickets = table' })

  -- One round of the loop of `generateTickets`.
  unfoldable pub issue : QrCodec → ReservationRow → SeatHoldRow → Action (Unit {0})
  unfolding insert_ticket uuid new_date
  issue codec r sh = do
    payload ← lift (generate_payload codec (payload_data r sh))
    id ← uuid
    now ← new_date
    insert_ticket (ticket_row r sh id payload now)

  unfoldable pub issue_all : QrCodec → ReservationRow → List SeatHoldRow → Action (Unit {0})
  issue_all codec r [] = pure tt
  issue_all codec r (sh ∷ shs) = do issue codec r sh; issue_all codec r shs

  unfoldable pub generate_tickets : QrCodec → String → Action (Unit {0})
  generate_tickets codec id = do
    found ← gets (λ w. p.find_first (λ r. r.id == id) w.reservations)
    r ← or_throw found (not_found_error "Reservation" (some id))
    holds ← gets (λ w. p.find_many (λ sh. sh.reservation_id == r.id) w.seat_holds)
    issue_all codec r holds

  -- The test that `getTicket` and `getTicketQRImage` begin with.
  unfoldable pub own_ticket : (id user_id : String) → Action TicketRow
  own_ticket id user_id = do
    found ← gets (λ w. p.find_first (λ t. t.id == id) w.tickets)
    t ← or_throw found (not_found_error "Ticket" (some id))
    throw_if (not (t.user_id == user_id)) (validation_error "This ticket does not belong to you")
    pure t

  -- `getTicket`, before its fields are formatted.
  unfoldable pub get_ticket : (id user_id : String) → Action TicketRow
  get_ticket id user_id = own_ticket id user_id

  unfoldable pub get_ticket_qr_image :
      {Image : Type 0} → (String → Image) → (id user_id : String) → Action Image
  get_ticket_qr_image draw id user_id = do t ← own_ticket id user_id; pure (draw t.qr_payload)

  module _ (iso : ℕ → String) where
    -- The last step of `validateTicket`, on the row that was read.
    use_ticket : TicketRow → SeatHoldRow → Action Validation
    unfolding new_date
    use_ticket t sh = do
      now ← new_date
      modify (λ w. record w {
        tickets =
            (p.update_many (λ r. r.id == t.id) (λ r. record r { status = used; used_at = some now })
              w.tickets).0;
      })
      pure (admitted t sh)

    by_status : TicketStatus → TicketRow → SeatHoldRow → Action Validation
    unfolding use_ticket
    by_status revoked t sh = pure (refused (some t.id) "This ticket has been revoked")
    by_status used t sh =
        pure (refused (some t.id) ("Ticket already used at " <> iso_or_undefined iso t.used_at))
    by_status valid t sh = use_ticket t sh

    -- Steps 3 and 4 of `validateTicket`, for the ticket and the seat hold that step 2 has read.
    unfoldable pub admit_ticket : TicketRow → SeatHoldRow → Action Validation
    unfolding by_status
    admit_ticket t sh = by_status t.status t sh

    with_hold : TicketRow → Option SeatHoldRow → Action Validation
    with_hold t none =
        λ w. (err (plain_error "Inconsistent query result: field seatHold is required"), w)
    with_hold t (some sh) = admit_ticket t sh

    -- Step 2, with the seat hold that the query includes.
    with_ticket : Option TicketRow → Action Validation
    unfolding with_hold
    with_ticket none = pure (refused none "Ticket not found in system")
    with_ticket (some t) = do
      hold ← gets (λ w. p.find_first (λ sh. sh.id == t.seat_hold_id) w.seat_holds)
      with_hold t hold

    verified : String → Option QrPayloadData → Action Validation
    unfolding with_ticket
    verified payload none = pure (refused none "Invalid or tampered QR code")
    verified payload (some d) = do
      found ← gets (λ w. p.find_first (λ t. t.qr_payload == payload) w.tickets)
      with_ticket found

    unfoldable pub validate_ticket : QrCodec → String → Action Validation
    unfolding verified
    validate_ticket codec payload = do d ← lift (verify_payload codec payload); verified payload d
