-- ===== src/RootScan.antt =====
-- mmtk/src/scanning.rs and the backtrace entries of julia_scanning.rs: the roots of a mutator thread.
pub mod Backtrace
pub mod Chunks
pub mod Mutator
pub mod Packets
pub mod WeakRefs
pub mod Examples
