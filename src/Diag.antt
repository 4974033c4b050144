-- ===== src/Diag.antt =====
-- balena/network-config/internal/diag: the network checks of the console.
pub mod Icmp
pub mod Ping
pub mod Trace
pub mod Route
pub mod Tunnel
pub mod Ipv6
pub mod Endpoints
pub mod Hex
pub mod Table
pub mod Reading
pub mod Pinging
pub mod Tracing
mod Examples
