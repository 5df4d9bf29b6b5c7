-- ===== src/Accounts.antt =====
-- User accounts: apps/users.
pub mod Users
pub mod Claims
pub mod Jwt
pub mod Views
pub mod Exchange
pub mod Providers
pub mod OAuth
pub mod Erasure
