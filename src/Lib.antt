-- ===== src/Lib.antt =====
-- TicketHub backend: the core of a ticket shop (booking, payments, prices, tickets, users, events
-- and venues), modelled from its TypeScript sources.
--
-- The program. A user asks for seats of an event (src/modules/booking/booking.service.ts). The
-- service counts the user's seats, takes a Redlock lock for each seat, checks in the database that
-- the seats are free, asks the pricing service for the price of each section, and stores a PENDING
-- reservation with its seat holds (booking.repository.ts). The entity behind it
-- (domain/reservation.entity.ts) is a state machine of PENDING, CONFIRMED, EXPIRED and CANCELLED
-- that raises domain events; the repository writes it back only over the version that was read. A
-- payment (src/modules/payments) goes through a circuit breaker to a payment gateway. Prices
-- (src/modules/pricing) are replayed from stored events and kept in a table and in a Redis cache.
-- For a confirmed reservation a worker issues tickets with signed QR payloads, which are validated
-- at the gate (src/modules/tickets). Users register, log in and rotate refresh tokens
-- (src/modules/users); guards of src/shared/middleware test their access tokens and roles and
-- repeated requests. Events and venues (src/modules/events, src/modules/venues) are changed by
-- their organizers and listed by pages with cursors.
--
-- How it is modelled.
--   * Common: native numbers, tests, lists. Errors: the error classes of src/shared/errors, the
--     result of a call that may throw, and the error handler.
--   * Platform: what the program runs on and does not implement (Prisma, Redis, Redlock, the clock,
--     identifiers, floating point) as a record of operations, with `IsLawful` for the behaviour
--     that their documentation promises; Platform/Memory fills it with lists and functions, and
--     proves its laws.
--   * World: the state that requests share (the tables, the breaker, Redis, locks, queued jobs) and
--     the actions on it, which return or throw; World/Rows: the rows of prisma/schema.prisma.
--   * Booking/Money, Booking/SeatHold, Booking/Reservation: the domain objects of
--     src/modules/booking/domain, as records and pure functions; each reading of the clock is an
--     argument. Booking/Repository and Booking/Service: the calls of the same names, as actions
--     (`hold` is `createReservation` of the service).
--   * Payments/CircuitBreaker, Payments/Gateway, Payments/Service: src/modules/payments.
--   * Pricing/Replay, Pricing/Repository, Pricing/Projection, Pricing/Service,
--     Pricing/History: src/modules/pricing. Notifications: src/modules/notifications.
--   * Tickets/Qr, Tickets/Service: src/modules/tickets. Users/Crypto, Users/Service:
--     src/modules/users, with what it takes from the cryptographic libraries as a record.
--   * Venues/Repository, Venues/Service, Events/Repository, Events/Service: the modules of the same
--     names; Shared/Pagination/Keyset is the cursor condition and the order that both listings have.
--   * Shared/Cache, Shared/SeatLock, Shared/Pagination: src/shared/redis/cache.ts,
--     src/shared/lock/redlock.ts and src/shared/utils/pagination.ts. Shared/Auth,
--     Shared/Idempotency: src/shared/middleware. Shared/Transaction, Shared/SyncEventBus:
--     src/shared/database/transaction-helper.ts and src/shared/events/sync-event-bus.ts.
--   * Frontend/Session, Frontend/Countdown: the session store, the API client and the countdown of
--     src/frontend/src, one response at a time.
--   * Tests: a small world, and the theorems at it.
--
-- Bounds. All loops are over lists and are structural recursion; the only fuel is that of the
-- decimal printer, which is the number itself plus one, more than its digits, and the number of
-- pages that a walk along cursors may take, of which one more than there are rows is enough.
-- Amounts are natural numbers of cents: JavaScript's are exact below 2^53, which no price here
-- comes near. A transaction is a call that leaves no trace when it throws; a request runs without
-- others in between, except where an interleaving is written out (the breaker's events, the race of
-- two updates).
--
-- Assumptions. The calls of the database, of Redis and of the job queue do what they are asked or
-- refuse by the tests that are written out (unique constraints, missing rows, versions); that they
-- fail for other reasons, such as a lost connection, is modelled only for the writes of
-- `confirmReservation` and `cancelReservation`, which the source awaits one by one outside a
-- transaction: `confirm_until` and `cancel_until` take the step at which the call is cut short, and
-- `confirm_reservation` and `cancel_reservation` are those that nothing cuts short. What is said of
-- the other calls, and of these two, when they throw is said of their own refusals only. A
-- `findMany` without `orderBy` gives its rows in any order, each as often as the table has it. `Date.now()` of the circuit breaker is a reading of its own at the start of a call and one
-- when the call has failed.
--
-- Not modelled: the routing of the asynchronous event bus; the list of a user's tickets, which only
-- reads; the set-up of the workers on their queues; Stripe's adapter, which is one of the gateways
-- that the payments service is given; logging, HTTP routes, the checks of the Zod schemas, the rate
-- limit and the pages of the front end, which carry no state of the core.
pub mod Common
pub mod Platform
pub mod Errors
pub mod World
pub mod Shared
pub mod Pricing
pub mod Booking
pub mod Frontend
pub mod Notifications
pub mod Payments
pub mod Tickets
pub mod Events
pub mod Users
pub mod Venues
pub mod Tests
