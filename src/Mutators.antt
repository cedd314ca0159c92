-- ===== src/Mutators.antt =====
-- The table of mutators (`MUTATORS` in mmtk/src/lib.rs), which mmtk/src/api.rs changes and
-- mmtk/src/active_plan.rs iterates over.
pub mod Table
pub mod Iterator
pub mod Lock
pub mod Guard
pub mod Examples
