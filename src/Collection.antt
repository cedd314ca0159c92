-- ===== src/Collection.antt =====
-- mmtk/src/collection.rs: stopping and resuming the mutators.
pub mod World
pub mod Safety
pub mod Lost
pub mod Progress
pub mod Stuck
pub mod Pause
pub mod Examples
