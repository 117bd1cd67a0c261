-- ===== src/Telegram.antt =====
-- The Telegram adapter (src/services/telegram.py): the updates that it polls for, and what it sends.
-- The Bot API is a parameter: each request has an answer.
pub mod Update
pub mod Poll
pub mod Send
pub mod Batch
pub mod Polled
pub mod Redacted
mod Examples
