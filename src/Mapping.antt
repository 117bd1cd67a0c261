-- ===== src/Mapping.antt =====
-- The mapping storage (src/services/mapping.py) over the tables of src/core/models.py.
pub mod Providers
pub mod Database
pub mod Cache
pub mod Storage
pub mod Bind
pub mod Binding
pub mod Coherence
pub mod Replicas
pub mod Unversioned
pub mod Channels
mod Examples
