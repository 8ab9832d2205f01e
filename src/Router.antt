-- ===== src/Router.antt =====
-- src/router.ts: from a channel event to the sessions of the wired agents. The module's hooks are
-- arguments, absent where no module has registered one, as in the source.
pub mod Event
pub mod Agents
pub mod Inbound
pub mod Strangers
pub mod Engage
pub mod FanOut
pub mod Silence
pub mod Deliver
pub mod Refused
mod Examples
