-- ===== src/Auth.antt =====
-- services/auth/auth_service: accounts, sessions and tokens.
pub mod Model
pub mod Users
pub mod Sessions
pub mod Tokens
pub mod Service
pub mod Limiter
pub mod Api
mod Tests
