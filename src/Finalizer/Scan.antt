-- ===== src/Finalizer/Scan.antt =====
-- mmtk/src/julia_finalizer.rs: `scan_finalizers_in_rust`, the finalizer work of one collection.
pub mod Defs
pub mod Threads
pub mod Nursery
pub mod Pairs
pub mod Full
