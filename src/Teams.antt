-- ===== src/Teams.antt =====
-- Microsoft Teams (src/services/teams_auth.py and src/services/teams.py): the checks of what comes in,
-- the addresses of the conversations, and what is sent.
pub mod Auth
pub mod Adapter
mod Kept
pub mod Addresses
mod Examples
