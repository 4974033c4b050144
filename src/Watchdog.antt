-- ===== src/Watchdog.antt =====
-- internal/watchdog/watchdog.go
pub mod World
pub mod Desired
pub mod Reconcile
mod Triple
mod Stages
pub mod Spacing
pub mod Calling
pub mod Dwell
pub mod Budget
pub mod Spending
pub mod Hourly
pub mod Lifetime
pub mod Quiet
pub mod Convergence
pub mod Breaker
pub mod Dynamic
mod Examples
