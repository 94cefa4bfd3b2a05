-- ===== src/Payments.antt =====
-- The payments module (src/modules/payments).
pub mod CircuitBreaker
pub mod Gateway
pub mod Service
