-- ===== src/Shared.antt =====
-- src/shared: helpers that the modules of the backend use.
pub mod Auth
pub mod Cache
pub mod Idempotency
pub mod SeatLock
pub mod SyncEventBus
pub mod Transaction
pub mod Pagination
