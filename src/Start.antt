-- ===== src/Start.antt =====
-- Starting the collector: `mmtk_gc_init` of mmtk/src/api.rs with the statics of lib.rs, and the GC
-- threads of collection.rs with the panic hook.
pub mod Options
pub mod Init
pub mod Frame
pub mod Once
pub mod Process
pub mod Settings
pub mod Configured
pub mod Threads
pub mod Examples
