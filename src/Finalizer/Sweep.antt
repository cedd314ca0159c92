-- ===== src/Finalizer/Sweep.antt =====
-- mmtk/src/julia_finalizer.rs: `sweep_finalizer_list`.
pub mod Defs
pub mod Fate
pub mod Compact
pub mod Swept
pub mod Loop
pub mod Refines
