-- ===== src/Engine/Flush.antt =====
-- `flush`, `load_collection`, `close_collection` and the reading of an index
-- (src/python/hypervec_server_engine.py).
pub mod Laws
use hyper_vector.Common.{
  ℕ, ◌+◌, String, Bool, true, false, not, ◌||◌, Option, none, some, List, [], ◌∷◌, ◌==◌, length,
  if◌then◌else◌,
}
use hyper_vector.Common.Result.{Result, ok, err, value_error, file_not_found, runtime_error}
use hyper_vector.Common.Exec.{pure, lift, gets, modify, refuse, or_raise, ◌>>=◌, ◌>>◌}
use hyper_vector.Json.{Json}
use hyper_vector.Library.{Codec, Hypervec}
use hyper_vector.Meta.{CollectionMeta}
use hyper_vector.Scalar.{Vector, get_vectors}
use hyper_vector.Engine.IndexConfig.{index_config, index_spec}
use hyper_vector.Engine.State.{
  Collection, Host, Method, meta_or_raise, meta_update, meta_bump, refresh_scalar_cache,
  checksum_of, size_of,
}

-- The results of `flush` and of the index upload.
pub record Flushed : Type 0 where
  pub total : ℕ
  pub dim : Option ℕ
  pub version : ℕ
  pub index_checksum : Option String
  pub index_size_bytes : Option ℕ

unfoldable pub flushed_of : CollectionMeta → Flushed
flushed_of m = record {
  total = m.total;
  dim = m.dim;
  version = m.version;
  index_checksum = m.index_checksum;
  index_size_bytes = m.index_size_bytes;
}

module _ {Index : Type 0} (host : Host Index) where
  open host use {codec, hypervec}

  -- `train` where the index wants it, then `_add_vectors`.
  unfoldable pub fill : Index → List Vector → Index
  fill index vectors =
      let trained = if hypervec.is_trained index then index else hypervec.train index vectors in
      hypervec.add trained vectors

  -- `_write_index`: beside the file, then renamed over it.
  unfoldable pub write_index : Index → Collection Index → Collection Index
  write_index index s = record s {
    dir = record s.dir { index = some (hypervec.write_index index); index_tmp = none };
  }

  unfoldable pub flush : ℕ → Method Index Flushed
  unfolding meta_or_raise meta_bump get_vectors index_spec index_config fill write_index
      refresh_scalar_cache flushed_of
  flush now = do
    meta ← meta_or_raise
    dim ← or_raise value_error meta.dim
    vectors ← λ s. (get_vectors dim s.tables, s)
    refuse (length vectors == 0 || dim == 0) value_error
    spec ← lift (index_spec codec.repr codec.truncate dim (index_config meta))
    let index = fill (hypervec.make spec) vectors
    modify (write_index index)
    file ← gets (λ s. s.dir.index)
    updated ← meta_bump now (λ m. record m {
      dim = some dim;
      total = length vectors;
      flushed_at = some now;
      index_version = meta.data_version;
      index_checksum = checksum_of codec file;
      index_size_bytes = size_of file;
    })
    modify (λ s. record s { loaded = some index })
    modify (refresh_scalar_cache host updated)
    pure (flushed_of updated)

  -- `_read_index`
  unfoldable pub read_index : Option (List ℕ) → Result Index
  read_index none = err runtime_error
  read_index (some bytes) = elim (hypervec.read_index bytes) [
    | none ↦ err runtime_error
    | some i ↦ ok i
  ]

  unfoldable pub load_collection_unlocked : CollectionMeta → Method Index (Unit {0})
  unfolding read_index refresh_scalar_cache
  load_collection_unlocked meta = do
    index ← λ s. (read_index s.dir.index, s)
    modify (λ s. record s { loaded = some index })
    modify (refresh_scalar_cache host meta)

  unfoldable pub load_collection : Method Index (Unit {0})
  unfolding meta_or_raise load_collection_unlocked
  load_collection = do
    meta ← meta_or_raise
    file ← gets (λ s. s.dir.index)
    or_raise file_not_found file
    load_collection_unlocked meta

  unfoldable pub close_collection : Method Index (Unit {0})
  close_collection = modify (λ s. record s { loaded = none; cache = none })
