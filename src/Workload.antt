-- ===== src/Workload.antt =====
-- The programs of nvr/workload that drive the matrix unit: how they encode its instructions, and how they
-- prepare sparse matrices for it.
pub mod Encode
pub mod Generator
pub mod Block
pub mod Columns
pub mod Count
pub mod Extract
pub mod Bsr
pub mod Fits
pub mod Expected
pub mod Product
pub mod Macros
pub mod Step
mod Tests
