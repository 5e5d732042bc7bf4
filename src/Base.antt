-- ===== src/Base.antt =====
-- The names that all modules share: the libraries' names passed on, tests and lists over the
-- native numbers, and machine words with their bits.
mod Tests
mod Lists
mod Names
pub mod Bits
pub use Tests.*
pub use Lists.*
unfoldable pub use Names.*
