-- ===== src/Pricing.antt =====
-- The pricing module (src/modules/pricing): append-only events and the prices projected from them.
pub mod Replay
pub mod Repository
pub mod Projection
pub mod Service
pub mod History
