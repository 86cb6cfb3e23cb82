-- ===== src/Wire.antt =====
-- robocol/src/wire.rs: big-endian reads and writes at fixed offsets of a byte buffer.
-- A `&[u8]` is a list of numbers below 256. A machine integer is its bit pattern: an `i64` is a number
-- below 2 ^ 64, and an `f32` the 32 bits that `to_bits` gives.
mod Slice
mod Endian
mod Utf8
mod Field
pub mod Trim
pub mod Layout
pub mod Fill
unfoldable pub use Slice.*
unfoldable pub use Endian.*
unfoldable pub use Utf8.*
unfoldable pub use Field.*
