-- ===== src/Base.antt =====
-- What the services share: library names, Boolean tests, lists over the native numbers, signed
-- integers, Go strings with the functions of package strings that the source calls, results with
-- an error, and search and update of tables.
mod Tests
mod Names
mod Lists
pub mod Int
pub mod Text
pub mod Result
pub mod Action
pub mod Table
pub use Names.*
pub use Lists.*
