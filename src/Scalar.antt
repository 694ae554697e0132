-- ===== src/Scalar.antt =====
-- src/python/hypervec_scalar_store.py: the rows of a collection in SQLite.
mod Defs
pub mod Import
pub mod Laws
unfoldable pub use Defs.*
unfoldable pub use Import.*
