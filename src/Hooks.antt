-- ===== src/Hooks.antt =====
-- The hooks of ui/src/hooks: which cached answers a change of the panel makes stale, and when a
-- query asks the backend.
pub mod Cache
pub mod Mutations
pub mod Queries
pub mod Refreshes
pub mod Reference
mod Tests
