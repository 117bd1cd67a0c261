-- ===== src/VkTeams.antt =====
-- The VK Teams adapter (src/services/vk_teams.py): its loop of polls, the events and what is sent.
pub mod Message
pub mod Poll
pub mod Send
pub mod Polled
mod Examples
