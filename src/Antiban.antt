-- ===== src/Antiban.antt =====
-- whatsapp-bridge/internal/antiban: pacing, the warm-up ramp, the health score and the send caps.
pub mod Config
pub mod Window
pub mod Caps
pub mod Health
pub mod WarmUp
pub mod Pacing
pub mod Interceptor
