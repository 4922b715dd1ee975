-- ===== src/Js.antt =====
-- What the TypeScript code uses of the language's own library: strings (as lists of UTF-16 code
-- units), the decimal form of a whole number and `parseInt`. The sources call these directly, so
-- nothing here stands for a file of the repository.
pub mod Strings
pub mod Split
pub mod Trim
pub mod Decimal
