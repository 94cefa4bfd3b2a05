-- ===== src/Tests/Worlds.antt =====
-- The data of the runs: an event that is far ahead, one pending reservation of one seat, and a price.
use tickethub_backend.Common.{none, some, List, [], ◌∷◌, ◌==◌, string_eq, ltb, if◌then◌else◌}
use tickethub_backend.Platform.Memory.{memory}
use tickethub_backend.World.{World}
use tickethub_backend.World.Rows.{
  ReservationRow, SeatHoldRow, SeatHoldStatus, EventRow, EventStatus, EventCategory,
  PricingEventRow, PricingEventType, base_price_set, TicketRow, TicketStatus,
}
use tickethub_backend.World.People.{Role, UserRow, RefreshTokenRow, VenueRow}
use tickethub_backend.Tickets.Qr.{QrPayloadData, QrCodec}
use tickethub_backend.Users.Crypto.{Crypto}
use tickethub_backend.Booking.Money.{Money}
use tickethub_backend.Booking.SeatHold.{SeatHold}
use tickethub_backend.Booking.Reservation.{Reservation, ReservationStatus, Seat}
use tickethub_backend.Payments.CircuitBreaker.{CircuitBreaker, CircuitState}
use tickethub_backend.Shared.Cache.{Json}
use tickethub_backend.Pricing.Replay.{Price}

abbrev pub concert : EventRow
concert = record {
  id = "e";
  venue_id = "v";
  organizer_id = "o";
  name = "Concert";
  description = "An evening";
  category = EventCategory.concert;
  status = EventStatus.published;
  starts_at = 1000000000000;
  ends_at = 1000010000000;
  sales_start_at = 1000;
  sales_end_at = 900000000000;
  poster_url = none;
  created_at = 900;
  deleted_at = none;
}

abbrev pub row : ReservationRow
row = record {
  id = "r";
  user_id = "u";
  event_id = "e";
  status = ReservationStatus.pending;
  total_price_in_cents = 5000;
  version = 1;
  expires_at = 2000000;
  confirmed_at = none;
  cancelled_at = none;
  created_at = 1000000;
}

abbrev pub seat_row : SeatHoldRow
seat_row = record {
  id = "s";
  reservation_id = "r";
  event_id = "e";
  section_name = "A";
  row = 1;
  seat = 2;
  price_in_cents = 5000;
  status = SeatHoldStatus.held;
}

abbrev pub first_price : PricingEventRow
first_price = record {
  id = "q";
  event_id = "e";
  section_name = "A";
  type = PricingEventType.base_price_set;
  payload = base_price_set 5000 "admin";
  created_at = 7;
}

abbrev pub closed_breaker : CircuitBreaker
closed_breaker = record {
  state = CircuitState.closed;
  failure_count = 0;
  last_failure_time = 0;
  service_name = "payment-gateway";
  failure_threshold = 5;
  cooldown_ms = 30000;
}

unfoldable pub world : World
unfolding memory
world = record {
  reservations = row ∷ [];
  seat_holds = seat_row ∷ [];
  events = concert ∷ [];
  pricing_events = first_price ∷ [];
  current_prices = [];
  payments = [];
  tickets = [];
  users = [];
  refresh_tokens = [];
  venues = [];
  notifications = [];
  breaker = closed_breaker;
  gateway_calls = [];
  redis = [];
  locks = [];
  jobs = [];
  readings = 0;
  drawn = 0;
}

abbrev pub money : Money
money = record { amount_in_cents = 5000; currency = "TRY" }

abbrev pub hold_of_seat : SeatHold
hold_of_seat = record {
  seat_hold_id = "s";
  event_id = "e";
  section_name = "A";
  row = 1;
  seat = 2;
  price_in_cents = 5000;
  expires_at = 2000000;
}

abbrev pub reservation_in : ReservationStatus → Reservation
reservation_in s = record {
  props = record {
    id = "r";
    user_id = "u";
    event_id = "e";
    status = s;
    seat_holds = hold_of_seat ∷ [];
    total_price = money;
    version = 1;
    expires_at = 2000000;
    event_starts_at = 1000000000000;
    confirmed_at = none;
    cancelled_at = none;
    payment_id = none;
    created_at = 1000000;
  };
  domain_events = [];
}

-- The reservation of the row, as a second process has it that wants to write the next version.
abbrev pub stepped : ReservationStatus → Reservation
stepped s = record (reservation_in s) { props = record (reservation_in s).props { version = 2 } }

abbrev pub two_seats : List Seat
two_seats =
    record { section = "A"; row = 1; seat = 2 } ∷ record { section = "A"; row = 1; seat = 3 } ∷ []

-- A JSON that writes nothing down: every value that is read back counts as missing.
instance unfoldable pub forgetful : Json Price
forgetful = record { stringify = λ price. ""; parse = λ text. none }

abbrev pub paid_row : ReservationRow
paid_row = record row { status = ReservationStatus.confirmed }

unfoldable pub paid_world : World
unfolding memory world
paid_world = record world { reservations = paid_row ∷ [] }

-- The payload that stands on the one ticket, and how it is signed.
abbrev pub seat_data : QrPayloadData
seat_data = record { ticket_id = "s"; event_id = "e"; section_name = "A"; row = 1; seat = 2 }

abbrev pub qr : QrCodec
qr = record {
  secret = some "key";
  hmac = λ secret text. "sig";
  stringify = λ d. d.ticket_id;
  to_base64 = λ text. text;
  parse_base64 = λ text. some seat_data;
}

abbrev pub ticket : TicketRow
ticket = record {
  id = "t";
  reservation_id = "r";
  seat_hold_id = "s";
  user_id = "u";
  qr_payload = "s.sig";
  status = TicketStatus.valid;
  used_at = none;
  created_at = 1000000;
}

unfoldable pub ticket_world : World
unfolding memory world
ticket_world = record world { tickets = ticket ∷ [] }

-- A hash that shows the password, a token that shows how often was drawn.
abbrev pub crypto : Crypto
crypto = record {
  hash = λ salt password. password;
  verify = λ hash password. hash == password;
  sha256 = λ text. text;
  random_token = λ n. if ltb n 5 then "early" else "late";
  sign = λ now user_id role. user_id;
}

abbrev pub ada : UserRow
ada = record {
  id = "u";
  email = "ada@example.org";
  password_hash = "secret";
  name = "Ada";
  role = Role.user;
  created_at = 900;
  deleted_at = none;
}

abbrev pub session : RefreshTokenRow
session = record {
  id = "i";
  user_id = "u";
  token_hash = "old";
  expires_at = 2000000;
  revoked_at = none;
  created_at = 900;
}

unfoldable pub user_world : World
unfolding memory world
user_world = record world { users = ada ∷ []; refresh_tokens = session ∷ [] }

abbrev pub hall : VenueRow
hall = record {
  id = "v";
  name = "Hall";
  address = "1 High Street";
  city = "Izmir";
  capacity = 100;
  seat_layout = "{}";
  created_at = 7;
  deleted_at = none;
}

abbrev pub arena : VenueRow
arena = record hall { id = "v2"; name = "Arena" }

unfoldable pub venue_world : World
unfolding memory world
venue_world = record world { venues = hall ∷ arena ∷ [] }
