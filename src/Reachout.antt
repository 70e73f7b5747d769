-- ===== src/Reachout.antt =====
-- The reachout timelock: whatsapp-bridge/internal/whatsapp/reachout.go.
pub mod Tracker
pub mod Held
