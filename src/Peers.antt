-- ===== src/Peers.antt =====
-- The pages about peers: the form, the table and the dialogs of ui/src/features/peers.
pub mod Bandwidth
pub mod Sessions
pub mod Config
pub mod TrafficInput
mod Tests
