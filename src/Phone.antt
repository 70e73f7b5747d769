-- ===== src/Phone.antt =====
-- When the primary phone was last online: whatsapp-bridge/internal/whatsapp/phoneping.go and
-- database/phone_status.go.
pub mod Monitor
pub mod Runs
pub mod Pings
pub mod Seen
