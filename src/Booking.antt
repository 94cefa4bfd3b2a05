-- ===== src/Booking.antt =====
-- The booking module (src/modules/booking): its domain classes, its repository and its service.
pub mod Money
pub mod SeatHold
pub mod Reservation
pub mod Repository
pub mod Service
