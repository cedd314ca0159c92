-- ===== src/Finalizer/ArrayList.antt =====
-- mmtk/src/julia_finalizer.rs: `ArrayListT`, the C `arraylist_t` as the binding reads and writes it,
-- and the tags in the low bits of its entries.
mod Contents
pub use Contents.*
unfoldable pub use Defs.*
mod Defs
