-- ===== src/Api.antt =====
-- The HTTP interface of whatsapp-bridge/internal/api.
pub mod RateLimit
