-- ===== src/Tests/Tickets.antt =====
-- Tickets at the gate, and a job that issues them, on the test world.
use tickethub_backend.Common.{count, filter, Bool}
use tickethub_backend.World.Rows.{SeatHoldRow}
use tickethub_backend.Booking.Repository.Stored.{belongs_to}
use tickethub_backend.Common.{ℕ, ◌≤◌, ◌≡◌, refl, String, ◌<>◌, some, [], string_eq, nat_eq}
use tickethub_backend.Errors.{Failure, ok, err}
use tickethub_backend.Platform.Memory.{memory, memory-IsLawful}
use tickethub_backend.Booking.Service.{cancel_reservation}
use tickethub_backend.Tickets.Qr.{get_secret, verify_payload}
use tickethub_backend.Tickets.Qr.Signatures.{verify_genuine}
use tickethub_backend.Tickets.Service.{validate_ticket, generate_tickets, admitted}
use tickethub_backend.Tickets.Service.Scans.{
  ScanOutcome, validate_ticket-Outcome, entries, entries_once,
}
use tickethub_backend.Tickets.Service.Issue.{
  IsIssuing, holds_of, generate_tickets-IsIssuing, generate_tickets_again,
}
use tickethub_backend.Tickets.Service.Cancelled.{validate-cancel}
use tickethub_backend.Tests.Worlds.{world, ticket_world, row, seat_row, qr, ticket, seat_data}

abbrev iso : ℕ → String
iso n = "2026"

validate_ticket-Outcome_example :
    ScanOutcome memory-IsLawful iso qr "s.sig" ticket_world
      (validate_ticket iso qr "s.sig" ticket_world)
validate_ticket-Outcome_example =
    validate_ticket-Outcome memory-IsLawful iso qr "s.sig" ticket_world

entries_once_example : entries memory-IsLawful iso qr "s.sig" 2 ticket_world ≤ 1
entries_once_example = entries_once memory-IsLawful iso qr "s.sig" 2 ticket_world

verify_genuine_example :
    (secret : String) × (text : String) × (get_secret qr ≡ ok secret)
    × ("s.sig" ≡ text <> "." <> qr.hmac secret text)
    × (qr.parse_base64 text ≡ some seat_data)
unfolding verify_payload string_eq nat_eq
verify_genuine_example = verify_genuine qr "s.sig" seat_data refl

generate_tickets-IsIssuing_example :
    IsIssuing memory-IsLawful qr row
      (holds_of memory-IsLawful qr "r" world)
      world
      (generate_tickets qr "r" world)
    × ((g : SeatHoldRow → Bool)
        → count g (holds_of memory-IsLawful qr "r" world)
          ≡ count g (filter (belongs_to "r") (memory.rows world.seat_holds)))
unfolding memory world string_eq
generate_tickets-IsIssuing_example =
    generate_tickets-IsIssuing memory-IsLawful qr "r" row world refl

generate_tickets_again_example :
    let (res, w') = generate_tickets qr "r" ticket_world in
    ((e : Failure) × (res ≡ err e)) × (memory.rows w'.tickets ≡ memory.rows ticket_world.tickets)
unfolding memory ticket_world string_eq
generate_tickets_again_example =
    generate_tickets_again memory-IsLawful qr "r" row seat_row [] ticket_world refl refl refl

validate-cancel_example :
    let w' = (cancel_reservation "u" "r" ticket_world).1 in
    (validate_ticket iso qr "s.sig" w').0 ≡ ok (admitted ticket seat_row)
unfolding memory ticket_world string_eq verify_payload nat_eq
validate-cancel_example =
    validate-cancel memory-IsLawful iso qr "s.sig" seat_data ticket seat_row "u" "r" ticket_world
      refl refl refl refl
