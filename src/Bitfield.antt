-- ===== src/Bitfield.antt =====
-- The bit fields of mmtk/src/julia_types.rs.
pub mod Bits
pub mod Storage
pub mod Reading
pub mod Word
pub mod Writing
pub mod RoundTrip
pub mod Raw
pub mod Accessors
pub mod Fields
pub mod Packing
pub mod Structures
pub mod Custom
pub mod Examples
