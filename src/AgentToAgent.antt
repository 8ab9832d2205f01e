-- ===== src/AgentToAgent.antt =====
-- src/modules/agent-to-agent/: messages between agent groups.
pub mod Destinations
pub mod Files
pub mod Route
pub mod Edges
pub mod Attachments
pub mod Returns
pub mod Authorized
pub mod Gated
mod Examples
