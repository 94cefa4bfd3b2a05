-- ===== src/Frontend.antt =====
-- src/frontend/src: the state that the browser keeps: its session, and the countdown of a hold.
pub mod Session
pub mod Countdown
