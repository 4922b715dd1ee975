-- ===== src/Share.antt =====
-- The page that a peer's owner opens with a shared link: ui/src/features/share.
pub mod Stats
pub mod Config
pub mod Handed
pub mod Page
mod Tests
