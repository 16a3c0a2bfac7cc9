-- ===== src/Notifications.antt =====
-- The notifications service (services/notifications/notifications_service).
pub mod Payload
pub mod Model
pub mod Repository
pub mod Outbox
pub mod Service
pub mod Scheduler
pub mod Publisher
pub mod Consistency
pub mod Listing
pub mod Api
pub mod Idempotency
pub mod Cancellation
pub mod Tests
