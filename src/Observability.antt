-- ===== src/Observability.antt =====
-- src/shortfire/observability: the alerts in Observability/Telegram and the registry of events in
pub mod Telegram
pub mod Delivery
pub mod Events
mod Tests
