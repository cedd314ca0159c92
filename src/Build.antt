-- ===== src/Build.antt =====
-- mmtk/build.rs, the build script; and mmtk/src/build_info.rs, the version texts.
pub mod Script
pub mod Again
pub mod Version
pub mod Examples
