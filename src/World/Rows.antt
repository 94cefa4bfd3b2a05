-- ===== src/World/Rows.antt =====
-- The rows of prisma/schema.prisma, with the columns that the modelled code reads or writes, and
-- the jobs of src/shared/events/types.ts. Texts are compared only; times are milliseconds.
use tickethub_backend.Common.{
  ℕ, String, Bool, false, Option, none, some, List, ◌&&◌, ◌||◌, ◌==◌, string_eq, nat_eq,
}
use tickethub_backend.Platform.{Platform}
use tickethub_backend.Booking.Reservation.{ReservationStatus, Seat, DomainEvent}

pub record ReservationRow : Type 0 where
  pub id : String
  pub user_id : String
  pub event_id : String
  pub status : ReservationStatus
  pub total_price_in_cents : ℕ
  pub version : ℕ
  pub expires_at : ℕ
  pub confirmed_at : Option ℕ
  pub cancelled_at : Option ℕ
  pub created_at : ℕ

pub data SeatHoldStatus : Type 0 where
  held confirmed released : SeatHoldStatus

pub record SeatHoldRow : Type 0 where
  pub id : String
  pub reservation_id : String
  pub event_id : String
  pub section_name : String
  pub row : ℕ
  pub seat : ℕ
  pub price_in_cents : ℕ
  pub status : SeatHoldStatus

pub data EventStatus : Type 0 where
  draft published cancelled completed sold_out : EventStatus

pub data EventCategory : Type 0 where
  concert theater sports festival comedy conference other : EventCategory

pub record EventRow : Type 0 where
  pub id : String
  pub venue_id : String
  pub organizer_id : String
  pub name : String
  pub description : String
  pub category : EventCategory
  pub status : EventStatus
  pub starts_at : ℕ
  pub ends_at : ℕ
  pub sales_start_at : ℕ
  pub sales_end_at : ℕ
  pub poster_url : Option String
  pub created_at : ℕ
  pub deleted_at : Option ℕ

-- `@id`
abbrev pub same_event : EventRow → EventRow → Bool
same_event a b = a.id == b.id

abbrev pub same_reservation : ReservationRow → ReservationRow → Bool
same_reservation a b = a.id == b.id

-- `@id` and `@@unique([eventId, sectionName, row, seat])`
abbrev pub same_seat : SeatHoldRow → SeatHoldRow → Bool
same_seat a b =
    a.event_id == b.event_id
    && a.section_name == b.section_name
    && a.row == b.row
    && a.seat == b.seat

abbrev pub seat_hold_clash : SeatHoldRow → SeatHoldRow → Bool
seat_hold_clash a b = a.id == b.id || same_seat a b

pub data PricingEventType : Type 0 where
  base_price_set surge_applied discount_applied price_adjusted early_bird_applied : PricingEventType
  last_minute_applied : PricingEventType

-- src/modules/pricing/domain/pricing.events.ts: the payloads of pricing events, less the event and
-- the section, which their rows carry too.
pub data PricingDomainEvent ⦃p : Platform⦄ : Type 0 where
  -- price in cents, set by
  base_price_set : ℕ → String → PricingDomainEvent
  -- multiplier, reason, previous price, new price
  surge_applied : p.Float → String → ℕ → ℕ → PricingDomainEvent
  -- discount percent, reason, previous price, new price
  discount_applied : p.Float → String → ℕ → ℕ → PricingDomainEvent
  -- previous price, new price, reason, adjusted by
  price_adjusted : ℕ → ℕ → String → String → PricingDomainEvent

pub record PricingEventRow ⦃p : Platform⦄ : Type 0 where
  pub id : String
  pub event_id : String
  pub section_name : String
  pub type : PricingEventType
  pub payload : PricingDomainEvent
  pub created_at : ℕ

pub record CurrentPriceRow ⦃p : Platform⦄ : Type 0 where
  pub event_id : String
  pub section_name : String
  pub base_price_in_cents : ℕ
  pub current_price_in_cents : ℕ
  pub multiplier : p.Float

-- What the async event bus adds to its queues.
pub data Job : Type 0 where
  -- reservation id, event, seats, delay in ms, job id
  expire_hold : String → String → List Seat → ℕ → String → Job
  reservation_confirmed : DomainEvent → Job
  reservation_cancelled : DomainEvent → Job
  -- type, recipient, reservation, payment
  notification_send : String → String → String → String → Job

pub data PaymentStatus : Type 0 where
  pending succeeded failed refunded partially_refunded : PaymentStatus

pub record PaymentRow : Type 0 where
  pub id : String
  pub reservation_id : String
  pub external_id : Option String
  pub amount_in_cents : ℕ
  pub currency : String
  pub status : PaymentStatus
  pub idempotency_key : Option String
  pub refunded_amount_in_cents : ℕ

-- `@unique` on a column that may be null: nulls are distinct.
abbrev same_key : Option String → Option String → Bool
same_key none _ = false
same_key (some a) none = false
same_key (some a) (some b) = a == b

-- `@id`, and `@unique` on the reservation and on the idempotency key.
abbrev pub payment_clash : PaymentRow → PaymentRow → Bool
payment_clash a b =
    a.reservation_id == b.reservation_id
    || (same_key a.idempotency_key b.idempotency_key || a.id == b.id)

pub data TicketStatus : Type 0 where
  valid used revoked : TicketStatus

pub record TicketRow : Type 0 where
  pub id : String
  pub reservation_id : String
  pub seat_hold_id : String
  pub user_id : String
  pub qr_payload : String
  pub status : TicketStatus
  pub used_at : Option ℕ
  pub created_at : ℕ

-- `@id`, and `@unique` on the seat hold.
abbrev pub ticket_clash : TicketRow → TicketRow → Bool
ticket_clash a b = a.seat_hold_id == b.seat_hold_id || a.id == b.id

-- A call of the payment gateway that moves money: a charge for a reservation, or a refund.
pub data GatewayCall : Type 0 where
  charge_call : String → ℕ → GatewayCall
  refund_call : String → Option ℕ → GatewayCall
