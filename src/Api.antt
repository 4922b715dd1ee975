-- ===== src/Api.antt =====
-- The calls of the backend, in ui/src/api: what each one sends, checks and returns.
pub mod Client
pub mod Authentication
pub mod Dashboard
pub mod Interfaces
pub mod IpPool
pub mod Peers
pub mod Servers
pub mod Telegram
pub mod User
pub mod Creating
pub mod Created
pub mod Lists
pub mod Routes
mod Tests
