-- ===== src/MediaRetry.antt =====
-- The persistent media retry queue of whatsapp-bridge: its tables (internal/database/
-- media_requests.go) and the loop that works them (internal/whatsapp/mediaretry_queue.go).
pub mod Requests
pub mod Queue
pub mod Ask
pub mod Paced
pub mod Hourly
