-- ===== src/Forms.antt =====
-- The forms that create and change peers, interfaces and servers.
pub mod Submit
pub mod NewPeer
pub mod Defaults
pub mod Sharing
pub mod Select
pub mod Drawn
pub mod RandomName
mod Tests
