-- ===== src/ObjectModel.antt =====
-- mmtk/src/object_model.rs: where an object starts, how large it is, and what copying it does.
pub mod Size
pub mod Copying
pub mod Align
pub mod Corrupt
pub mod Examples
