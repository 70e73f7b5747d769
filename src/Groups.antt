-- ===== src/Groups.antt =====
-- What WhatsApp answers about groups, and how long the bridge keeps it:
-- whatsapp-bridge/internal/whatsapp/groupcache.go.
pub mod Cache
pub mod Events
pub mod Holds
pub mod Served
