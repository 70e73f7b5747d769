-- ===== src/Webhook.antt =====
-- The webhooks of whatsapp-bridge/internal/webhook.
pub mod Triggers
pub mod Delivery
pub mod Addresses
