-- ===== src/Engine/Purge.antt =====
-- `purge_collection_data` of src/python/hypervec_server_engine.py.
pub mod Laws
use hyper_vector.Common.{
  ℕ, ◌+◌, String, Bool, true, false, not, ◌&&◌, Option, none, some, List, [], ◌==◌, str_eq,
  if◌then◌else◌,
}
use hyper_vector.Common.Result.{Result, ok, err, conflict_error}
use hyper_vector.Common.Exec.{pure, gets, modify, refuse, ◌>>=◌, ◌>>◌}
use hyper_vector.Meta.{CollectionMeta, purged}
use hyper_vector.Scalar.{count, rollback_staging, purge_collection_rows}
use hyper_vector.Engine.State.{Collection, Host, Method, meta_or_raise, meta_update}

abbrev is_at : Option ℕ → ℕ → Bool
is_at none n = false
is_at (some m) n = m == n

abbrev same_text : Option String → Option String → Bool
same_text none none = true
same_text (some a) (some b) = str_eq a b
same_text _ _ = false

-- The last export covers the data and the index.
unfoldable pub is_exported : CollectionMeta → Bool
is_exported m =
    is_at m.exported_data_version m.data_version
    && (is_at m.exported_index_version m.index_version
        && same_text m.exported_index_checksum m.index_checksum)

-- The changes of the entry, after a purge of data at version `data_version` with `rows` rows.
unfoldable pub purged_of : ℕ → ℕ → ℕ → CollectionMeta → CollectionMeta
purged_of now rows data_version m = record m {
  data_state = purged;
  last_purged_at = some now;
  last_known_total = some rows;
  data_version = data_version + 1;
  index_version = 0;
  index_checksum = none;
  index_size_bytes = none;
  flushed_at = none;
  total = 0;
  exported_data_version = none;
  exported_bundle_checksum = none;
  exported_index_version = none;
  exported_index_checksum = none;
}

module _ {Index : Type 0} where
  -- The index file and everything that matches the patterns of the residue, and `.export.tmp`.
  unfoldable pub sweep_files : Collection Index → Collection Index
  sweep_files s = record s {
    dir = record s.dir {
      index = none;
      index_tmp = none;
      upload_tmp = none;
      staging = none;
      pre_import = none;
      bundles = [];
      export_tmp = none;
    };
  }

  -- The result is `last_known_total`. The scalar cache is not evicted.
  unfoldable pub purge_collection_data : ℕ → Bool → Method Index ℕ
  unfolding meta_or_raise meta_update is_exported sweep_files count rollback_staging
      purge_collection_rows purged_of
  purge_collection_data now require_exported = do
    meta ← meta_or_raise
    refuse (require_exported && not (is_exported meta)) conflict_error
    last_known_total ← gets (λ s. count s.tables)
    modify (λ s. record s { loaded = none })
    modify sweep_files
    modify (λ s. record s { tables = rollback_staging s.tables })
    modify (λ s. record s { tables = (purge_collection_rows s.tables).1 })
    meta_update now (λ m. purged_of now last_known_total meta.data_version m)
    pure last_known_total
