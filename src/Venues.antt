-- ===== src/Venues.antt =====
-- src/modules/venues: the places where events are held.
pub mod Repository
pub mod Service
