-- ===== src/Schema.antt =====
-- The schemas of ui/src/schema, and what a value that passes them is like.
pub mod ApiResponse
pub mod Authentication
pub mod Dashboard
pub mod Interfaces
pub mod IpPool
pub mod Peers
pub mod Servers
pub mod Sync
pub mod Telegram
