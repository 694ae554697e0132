-- ===== src/Meta.antt =====
-- src/python/hypervec_meta_store.py: the metadata of a collection, its JSON document, and the store
-- of all collections with its file.
mod Defs
pub mod Codec
pub mod Store
unfoldable pub use Defs.*
