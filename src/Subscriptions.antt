-- ===== src/Subscriptions.antt =====
-- The subscriptions service (services/subscriptions/subscriptions_service).
pub mod Model
pub mod Repository
pub mod Service
pub mod Topics
pub mod Api
pub mod Tests
