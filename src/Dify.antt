-- ===== src/Dify.antt =====
-- The Dify client (src/services/dify_client.py): a chat over a stream of events.
pub mod Stream
pub mod Chat
pub mod Answered
mod Examples
