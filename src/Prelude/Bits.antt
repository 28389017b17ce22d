-- ===== src/Prelude/Bits.antt =====
-- Laws of the bit operations on words of every width.
pub mod Digits
pub mod Fields
pub mod Xor
pub use Fields.*
pub use Xor.*
