-- ===== src/Webhook.antt =====
-- Webhooks: the events (internal/database/types/webhook.go), and the dispatcher that selects the
-- endpoints of an event (internal/webhook).
pub mod Events
pub mod Manager
pub mod Dispatch
pub mod Laws
mod Tests
