-- ===== src/Tables.antt =====
-- The tables of the features in ui/src/features: how a column is sorted and filtered.
pub mod Sorting
pub mod Addresses
pub mod Filters
pub mod Selecting
pub mod Columns
pub mod Toggles
pub mod Facets
pub mod Body
pub mod Pages
pub mod PagedRows
pub mod Badges
mod Tests
