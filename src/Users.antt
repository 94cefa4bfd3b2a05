-- ===== src/Users.antt =====
-- src/modules/users: accounts and sessions.
pub mod Crypto
pub mod Service
