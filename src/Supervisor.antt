-- ===== src/Supervisor.antt =====
-- internal/supervisor/client.go
pub mod Proxy
pub mod Api
pub mod Sorting
pub mod Comparison
pub mod Client
pub mod Retry
mod Examples
