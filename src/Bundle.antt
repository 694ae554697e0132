-- ===== src/Bundle.antt =====
-- src/python/hypervec_bundle.py: the collection data bundle, a ZIP archive of a manifest, an index
-- and the rows as JSON lines.
pub mod Labels
pub mod Lines
pub mod ZipTime
pub mod Archive
