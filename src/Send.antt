-- ===== src/Send.antt =====
-- The send path of whatsapp-bridge: idempotency keys (internal/database/send_state.go) and the
-- handler that wraps one send (internal/api/send.go).
pub mod Idempotency
pub mod Handler
