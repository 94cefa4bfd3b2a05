-- ===== src/Tests.antt =====
-- Runs of the code on small inputs, and the theorems at those inputs.
pub mod Worlds
pub mod Reservations
pub mod Bookings
pub mod Payments
pub mod Breakers
pub mod Prices
pub mod Values
pub mod Tickets
pub mod Users
pub mod Listings
pub mod Jobs
