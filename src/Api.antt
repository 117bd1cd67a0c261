-- ===== src/Api.antt =====
-- The HTTP endpoints (src/api): the control plane, Mattermost's buttons, and the webhooks of Bitrix and
-- Teams. An answer of an endpoint and the background tasks that it starts are values.
pub mod Guard
pub mod Control
pub mod Action
pub mod Bitrix
pub mod Teams
pub mod Guarded
pub mod Forms
pub mod Activities
mod Examples
