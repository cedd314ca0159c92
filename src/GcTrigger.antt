-- ===== src/GcTrigger.antt =====
-- mmtk/src/gc_trigger.rs: when a collection is due, by the heuristics of Julia's stock collector.
pub mod Overallocation
pub mod Floats
pub mod Policy
pub mod Target
pub mod History
pub mod Examples
