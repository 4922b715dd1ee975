-- ===== src/Layout.antt =====
-- ui/src/components/layout/nav-group.tsx and ui/src/utils/helper.ts: which entry of the sidebar is
-- active, and the initials of a user.
pub mod Navigation
pub mod Sidebar
pub mod Links
pub mod SettingsNav
pub mod Initials
mod Tests
