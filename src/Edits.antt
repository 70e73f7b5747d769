-- ===== src/Edits.antt =====
-- Edits and deletions of stored messages: whatsapp-bridge/internal/database/edits_calls.go, and
-- StoreMessage of messages.go.
pub mod Rows
pub mod Authors
pub mod Apply
pub mod Revoke
pub mod Messages
pub mod Forward
