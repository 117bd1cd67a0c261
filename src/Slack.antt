-- ===== src/Slack.antt =====
-- The Slack adapter (src/services/slack.py): Socket Mode and the Web API.
pub mod Events
pub mod Socket
pub mod Send
pub mod Sessions
mod Examples
