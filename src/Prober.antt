-- ===== src/Prober.antt =====
-- balena/network-config/internal/proxyprobe: testing a proxy from userspace, stage by stage.
pub mod Stages
pub mod Wire
pub mod Socks
pub mod Http
pub mod Probe
pub mod Rows
pub mod Paths
pub mod RoundTrip
pub mod Drain
pub mod Certificates
pub mod Roots
mod Examples
