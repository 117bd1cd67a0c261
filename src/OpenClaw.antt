-- ===== src/OpenClaw.antt =====
-- The client of one OpenClaw instance (src/services/openclaw_client.py): its state, the dispatch of
-- gateway frames, the request in flight, and the handshake.
pub mod State
pub mod Media
pub mod Frame
pub mod Dispatch
pub mod Actions
pub mod Futures
pub mod Pending
pub mod Invariant
pub mod Settled
pub mod Requests
pub mod Answers
pub mod Replies
pub mod Connect
pub mod Handshake
mod Examples
