-- ===== src/Web.antt =====
-- balena/network-config/internal/web: sessions, the login, the routes, the forms that change the device,
-- and the rollback guard around interface changes.
pub mod Gate
pub mod Guarded
pub mod Settings
pub mod Saving
pub mod Pending
pub mod Rollback
pub mod Addressing
pub mod Reverting
pub mod Session
pub mod Fields
pub mod Cookies
pub mod Limiter
pub mod Spread
pub mod Tally
pub mod Throttle
pub mod Checks
pub mod Bundle
pub mod Redacted
pub mod Secrets
pub mod Interfaces
mod Examples
mod BundleExamples
