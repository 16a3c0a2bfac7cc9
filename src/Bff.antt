-- ===== src/Bff.antt =====
-- services/bff/bff_gateway: the gateway between the browser and the services.
pub mod Model
pub mod Headers
pub mod Values
pub mod Downstream
pub mod Proxy
pub mod Auth
pub mod Services
pub mod Search
pub mod Subscriptions
pub mod Notifications
pub mod Guards
mod Tests
