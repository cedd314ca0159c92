-- ===== src/Finalizer/Mark.antt =====
-- mmtk/src/julia_finalizer.rs: `mark_finlist`.
pub mod Defs
pub mod Entries
pub mod Marked
pub mod Loop
