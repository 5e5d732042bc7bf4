-- ===== src/Base/Bits.antt =====
-- Bits of machine words: C's `&`, `|`, `^`, `~`, `<<` and `>>`, and the bit at a position.
mod Step
mod Laws
mod Fields
mod Powers
mod Shift
mod Xor
pub use Step.{bit_and_step, bit_or_step, bit_xor_step}
unfoldable pub use Laws.*
pub use Fields.*
pub use Powers.*
pub use Shift.*
pub use Xor.*
