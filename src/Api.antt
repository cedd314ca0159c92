-- ===== src/Api.antt =====
-- mmtk/src/api.rs, mmtk/src/reference_glue.rs and mmtk/src/util.rs: calls from C with logic of the
-- binding's own.
pub mod Buffer
pub mod WeakRef
pub mod Request
pub mod Forward
pub mod Region
pub mod Examples
