-- ===== src/Delivery.antt =====
-- The delivery service (services/delivery/delivery_service).
pub mod QuietHours
pub mod Backoff
pub mod Model
pub mod Metrics
pub mod Attempts
pub mod Processed
pub mod Effects
pub mod Executor
pub mod Providers
pub mod Worker
pub mod Fanout
pub mod Consumer
pub mod Tests
