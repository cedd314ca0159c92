-- ===== src/Structs.antt =====
-- mmtk/src/julia_types.rs: the C structures, laid out as `#[repr(C)]` lays them out.
pub mod Tags
pub mod Layout
pub mod Asserted
pub mod Lists
pub mod Threads
pub mod Objects
pub mod Types
pub mod Modules
pub mod Agreement
pub mod Reads
pub mod Examples
