-- ===== src/Activity.antt =====
-- balena/network-config/internal/activity: the bounded record of what the program did.
pub mod Log
pub mod Window
mod Examples
