-- ===== src/Slots.antt =====
-- mmtk/src/slots.rs: the places that hold references, memory slices and the buffers for roots.
pub mod Slot
pub mod Slice
pub mod Copy
pub mod Iterator
pub mod Roots
pub mod Reports
pub mod Examples
