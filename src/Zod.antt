-- ===== src/Zod.antt =====
-- The validation library of the panel, as a parameter: the values that it checks, the schemas that
-- the sources build, and the documented meaning of each combinator.
pub mod Values
pub mod Syntax
pub mod Interface
pub mod Laws
pub mod Shapes
pub mod Reference
