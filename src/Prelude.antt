-- ===== src/Prelude.antt =====
-- The names that the other modules share: the libraries', passed on, and those of the children.
pub mod Tests
pub mod Lists
pub mod Results
pub mod Int
pub mod Text
pub mod TextOrder
pub mod Reorder
pub mod Chars
pub use Tests.*
pub use Lists.*
unfoldable pub use Text.*
pub use Int.*
