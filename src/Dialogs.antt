-- ===== src/Dialogs.antt =====
-- The dialogs of the features in ui/src/features: which one is open, what confirms a deletion, and
-- what is selected for a synchronisation.
pub mod Opening
pub mod Deletion
pub mod Selection
pub mod Submitted
pub mod Chosen
pub mod Boxes
pub mod Rows
pub mod Pages
pub mod Shown
pub mod Features
pub mod Settled
pub mod Resets
mod Tests
