-- ===== src/Tickets.antt =====
-- src/modules/tickets: signed QR codes, and the tickets that carry them.
pub mod Qr
pub mod Service
