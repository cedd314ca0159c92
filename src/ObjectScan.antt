-- ===== src/ObjectScan.antt =====
-- mmtk/src/julia_scanning.rs: what an object, a task's shadow stack and a backtrace entry refer to.
pub mod Layout
pub mod Loops
pub mod Object
pub mod Stack
pub mod Dispatch
pub mod Kinds
pub mod Elements
pub mod Frames
pub mod CopiedStack
pub mod Modules
pub mod Task
pub mod Memory
pub mod Parameters
pub mod Examples
