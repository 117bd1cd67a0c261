-- ===== src/Mattermost.antt =====
-- The Mattermost adapter (src/services/mattermost.py): its socket, the posts and the HTTP API.
pub mod Posts
pub mod Socket
pub mod Send
pub mod Sequence
mod Examples
