-- ===== src/Dashboard.antt =====
-- The dashboard: ui/src/features/dashboard.
pub mod Traffic
pub mod Cards
mod Tests
