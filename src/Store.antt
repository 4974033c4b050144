-- ===== src/Store.antt =====
-- balena/network-config/internal/store: the configuration, the state, and what holds of them.
pub mod Config
pub mod State
pub mod Bounds
pub mod Changes
pub mod Login
pub mod Credentials
pub mod Files
pub mod Atomic
mod Examples
