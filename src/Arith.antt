-- ===== src/Arith.antt =====
-- riscv/arith.h: the integer helpers that the instructions use. A signed value is its two's
-- complement pattern; a template over an integer type takes the width of the type.
pub mod Multiply
pub mod Saturate
pub mod Count
pub mod Permute
mod Tests
