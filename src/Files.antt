-- ===== src/Files.antt =====
-- File transfer (src/services/file_manager.py).
pub mod Paths
pub mod Names
pub mod Context
pub mod Containment
pub mod Transfer
pub mod Sanitized
pub mod Downloads
mod Examples
