-- ===== src/Base/Bits.antt =====
-- The bit operations that the program uses, as arithmetic: masks of low bits, the top bit of a
-- byte, single bits, and exclusive or.
mod Step
mod Mask
mod Xor
pub use Step.*
pub use Mask.*
pub use Xor.*
