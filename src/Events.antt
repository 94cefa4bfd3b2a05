-- ===== src/Events.antt =====
-- src/modules/events: the events that are sold, their listing and search.
pub mod Repository
pub mod Service
