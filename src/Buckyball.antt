-- ===== src/Buckyball.antt =====
-- The matrix unit of nvr/buckyball: a scratchpad of rows of 8-bit elements and two register files
-- of indices, which custom instructions load, store and multiply.
pub mod Fields
pub mod Run
pub mod State
pub mod Move
pub mod Multiply
pub mod Custom
pub mod Cells
pub mod Shows
pub mod Product
pub mod Entry
pub mod Sparse
pub mod Fuel
pub mod Ram
pub mod Transfer
pub mod Scatter
pub mod Invariant
pub mod Sized
pub mod Kept
pub mod Fixture
mod Tests
