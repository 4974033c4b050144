-- ===== src/Netmgr.antt =====
-- balena/network-config/internal/netmgr: the profiles that netcfgd owns in NetworkManager.
pub mod Dictionary
pub mod Bus
pub mod Seeding
pub mod Profiles
pub mod Address
pub mod Priority
pub mod Owned
pub mod Identity
pub mod Laws
pub mod Undo
pub mod Change
pub mod Sample
pub mod Ordering
pub mod Wifi
pub mod Joining
pub mod Enabling
mod Examples
