-- ===== src/Bitfield/Fields.antt =====
-- The bit fields of the structures of mmtk/src/julia_types.rs, by structure.
pub mod Context
pub mod TaggedValue
pub mod TypeName
pub mod Layout
pub mod DataType
