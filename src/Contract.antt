-- ===== src/Contract.antt =====
-- internal/contract: the reader of contract files.
pub mod Node
pub mod Ensures
pub mod Lines
pub mod Quote
pub mod Scalar
pub mod Block
pub mod Distance
pub mod Schema
pub mod Field
pub mod Decode
pub mod Parse
