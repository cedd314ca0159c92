-- ===== src/Finalizer.antt =====
-- mmtk/src/julia_finalizer.rs: Julia's finalizer lists, swept and marked at a collection.
pub mod ArrayList
pub mod Sweep
pub mod Mark
pub mod Scan
pub mod Examples
