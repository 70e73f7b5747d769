-- ===== src/Tests.antt =====
-- Runs of the models at concrete inputs, and instances of their theorems.
mod Antiban
mod Send
mod MediaRetry
mod Api
mod Webhook
mod Addresses
mod Edits
mod Groups
mod Phone
mod Polls
mod Reachout
