-- ===== src/Base.antt =====
-- The names that the other modules share: the libraries', passed on, and those of the children,
-- which model the parts of Python's built-in types that the scripts use.
mod Names
mod Equality
mod Lists
pub mod Order
pub mod Int
pub mod Text
pub mod Number
pub mod Dict
pub mod Result
pub mod Fields
pub use Names.*
unfoldable pub use Equality.*
pub use Lists.*
