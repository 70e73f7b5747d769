-- ===== src/Polls.antt =====
-- The votes of a poll: whatsapp-bridge/internal/database/polls.go and internal/whatsapp/polls.go.
pub mod Votes
pub mod Names
pub mod Tally
