-- ===== src/Delivery.antt =====
-- src/delivery.ts: the outbound messages of a session, to channels, to agents and to the host itself.
pub mod Questions
pub mod Message
pub mod Drain
pub mod Polls
pub mod Attempts
pub mod Retries
pub mod Quiet
pub mod Chats
pub mod Sends
pub mod Cards
mod Examples
