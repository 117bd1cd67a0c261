-- ===== src/Router.antt =====
-- The router (src/router.py): what it calls, the channels, an event, and the streamed updates.
pub mod World
pub mod Channels
pub mod Event
pub mod Stream
pub mod Throttled
mod Keeps
mod Handler
pub mod Delivery
pub mod Remembered
pub mod Shown
pub mod Proactive
pub mod Misrouted
mod Examples
