-- ===== src/Hooks/Tests.antt =====
-- The theorems at concrete data.

use wgpanelne.Hooks.Refreshes.{Refreshes}
