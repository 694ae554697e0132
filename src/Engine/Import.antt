-- ===== src/Engine/Import.antt =====
-- `import_collection_bundle` of src/python/hypervec_server_engine.py.
pub mod Laws
mod Rows
use hyper_vector.Common.{
  ℕ, ◌+◌, String, Bool, true, false, not, ◌&&◌, ◌||◌, Option, none, some, List, [], ◌∷◌, map, ◌==◌,
  str_eq, length, if◌then◌else◌,
}
use hyper_vector.Common.Result
use hyper_vector.Common.Result.{
  Result, ok, err, Error, conflict_error, file_not_found, value_error, type_error, key_error,
  traverse,
}
use hyper_vector.Common.Exec.{pure, lift, gets, modify, refuse, or_raise, ◌>>=◌, ◌>>◌}
use hyper_vector.Json.{Json, null, int, str, obj, Fields, end, field, get, truthy}
use hyper_vector.Json.Text.{py_str}
use hyper_vector.Library.{Codec, Hypervec}
use hyper_vector.Meta.{CollectionMeta, ImportTxn, DataState, ready, purged, importing, invalid}
use hyper_vector.Scalar.{Doc, Tables, import_rows_to_staging, commit_staging, rollback_staging}
use hyper_vector.Bundle.Archive.{
  BundleFile, read_bundle, schema_checksum, is_str, read_dim, read_total,
}
use hyper_vector.Engine.State.{
  Collection, Host, Method, meta_or_raise, meta_update, meta_bump, on_tables, checksum_of, size_of,
}
use hyper_vector.Engine.Flush.{Flushed, flushed_of, read_index}
use hyper_vector.Engine.Export.{dim_differs}
use hyper_vector.Engine.Upload.{differs}
unfoldable pub use Rows.*

-- bundle_value is not None and bundle_value != meta_value
abbrev field_differs : Option Json → String → Bool
field_differs none s = false
field_differs (some null) s = false
field_differs (some v) s = not (is_str (some v) s)

abbrev either_differs : Option ℕ → Option ℕ → Bool
either_differs (some a) (some b) = not (a == b)
either_differs _ _ = false

-- manifest.get("dim") or meta.dim
abbrev pub dim_or : Option ℕ → Option ℕ → Option ℕ
dim_or none d = d
dim_or (some n) d = if n == 0 then d else some n

abbrev text_entry : Option Json → Option String
text_entry (some (str s)) = some s
text_entry _ = none

-- The bundle that is to be restored, once it has been read and fits the collection.
pub record Restore : Type 0 where
  pub index_bytes : List ℕ
  pub rows : List Fields
  pub dim : Option ℕ
  pub total : ℕ
  pub source_checksum : Option String

-- meta.data_state == "importing" or meta.import_txn
unfoldable pub is_pending : DataState → Option ImportTxn → Bool
is_pending importing t = true
is_pending ready t = elim t [ none ↦ false | some x ↦ true ]
is_pending purged t = elim t [ none ↦ false | some x ↦ true ]
is_pending invalid t = elim t [ none ↦ false | some x ↦ true ]

module _ {Index : Type 0} (host : Host Index) where
  open host use {codec, hypervec}

  -- The compatibility of a manifest with the collection.
  unfoldable pub check_manifest : CollectionMeta → Fields → Result (Option ℕ × ℕ)
  unfolding schema_checksum get
  check_manifest meta manifest = Result.◌>>=◌ (read_dim (get manifest "dim")) (λ dim.
      Result.◌>>◌ (Result.refuse (either_differs meta.dim dim) conflict_error) (
        Result.◌>>◌
          (Result.refuse
            (not (is_str (get manifest "schema_checksum") (schema_checksum codec meta.schema)))
            conflict_error)
          (Result.◌>>◌
            (Result.refuse
              (field_differs (get manifest "id_field") meta.id_field
                || field_differs (get manifest "vector_field") meta.vector_field
                || field_differs (get manifest "text_field") meta.text_field)
              conflict_error)
            (Result.◌>>=◌ (read_total (get manifest "total")) (λ total. ok (dim, total))))))

  -- The prepare phase, one durable write after the other: the staged index, the staged rows, and the
  -- commit intent in the metadata.
  unfoldable pub stage_index : List ℕ → Collection Index → Collection Index
  stage_index bytes s = record s { dir = record s.dir { staging = some bytes } }

  unfoldable pub check_staged : Restore → Method Index Index
  unfolding read_index
  check_staged r = do
    index ← λ s. (read_index host s.dir.staging, s)
    refuse (dim_differs r.dim (hypervec.dim index)) conflict_error
    refuse (not (hypervec.n_total index == r.total && r.total == length r.rows)) conflict_error
    pure index

  unfoldable pub stage_rows : ℕ → List Fields → Method Index ℕ
  unfolding row_of_dict import_rows_to_staging
  stage_rows now rows = do
    docs ← lift (traverse (row_of_dict codec) rows)
    on_tables (import_rows_to_staging now docs)

  abbrev pub txn_of : CollectionMeta → Restore → ImportTxn
  txn_of meta r = record {
    stage = "prepared";
    new_data_version = meta.data_version + 1;
    prev_state = meta.data_state;
    total = length r.rows;
    dim = dim_or r.dim meta.dim;
    source_checksum = r.source_checksum;
  }

  unfoldable pub mark_importing : ℕ → CollectionMeta → Restore → Method Index CollectionMeta
  unfolding meta_update
  mark_importing now meta r =
      meta_update now (λ m. record m { data_state = importing; import_txn = some (txn_of meta r) })

  unfoldable pub prepare : ℕ → CollectionMeta → Restore → Method Index Index
  unfolding stage_index check_staged stage_rows mark_importing
  prepare now meta r = do
    modify (stage_index r.index_bytes)
    index ← check_staged r
    stage_rows now r.rows
    mark_importing now meta r
    pure index

  -- The handler of the prepare phase: nothing staged is left, and a commit intent is withdrawn.
  unfoldable pub sweep : Collection Index → Collection Index
  unfolding rollback_staging
  sweep s = record s { dir = record s.dir { staging = none }; tables = rollback_staging s.tables }

  unfoldable pub withdraw : ℕ → DataState → Collection Index → Collection Index
  unfolding sweep is_pending
  withdraw now prev_state s = elim s.meta [
    | none ↦ sweep s
    | some m ↦
        if is_pending m.data_state m.import_txn
        then record (sweep s) {
          meta = some (record m { data_state = prev_state; import_txn = none; updated_at = now });
        }
        else sweep s
  ]

  -- The commit switch, one durable write after the other.
  unfoldable pub set_aside : Collection Index → Collection Index
  set_aside s = elim s.dir.index [
    | none ↦ s
    | some old ↦ record s { dir = record s.dir { index = none; pre_import = some old } }
  ]

  unfoldable pub switch_index : Collection Index → Collection Index
  switch_index s = record s { dir = record s.dir { index = s.dir.staging; staging = none } }

  unfoldable pub finalize : ℕ → CollectionMeta → Restore → Method Index CollectionMeta
  unfolding meta_bump
  finalize now meta r s =
      meta_bump now
        (λ m. record m {
          dim = dim_or r.dim meta.dim;
          total = length r.rows;
          flushed_at = some now;
          data_state = ready;
          last_known_total = some (length r.rows);
          data_version = meta.data_version + 1;
          index_version = meta.data_version + 1;
          import_txn = none;
          index_checksum = checksum_of codec s.dir.index;
          index_size_bytes = size_of s.dir.index;
        })
        s

  unfoldable pub drop_pre_import : Collection Index → Collection Index
  drop_pre_import s = record s { dir = record s.dir { pre_import = none } }

  unfoldable pub commit : ℕ → CollectionMeta → Restore → Method Index CollectionMeta
  unfolding set_aside switch_index commit_staging finalize drop_pre_import
  commit now meta r = do
    modify set_aside
    modify switch_index
    on_tables commit_staging
    updated ← finalize now meta r
    modify drop_pre_import
    pure updated

  -- `prepare` under `try`: on an exception the state is withdrawn, and the exception goes on.
  unfoldable pub prepare_or_withdraw : ℕ → CollectionMeta → Restore → Method Index Index
  unfolding prepare withdraw
  prepare_or_withdraw now meta r s =
      let (result, s') = prepare now meta r s in
      elim result [ ok index ↦ (ok index, s') | err e ↦ (err e, withdraw now meta.data_state s') ]

  -- `if checksum:`, with the digest of a file that has to be there.
  unfoldable pub check_digest : Option BundleFile → Option String → Result (Unit {0})
  check_digest none none = ok tt
  check_digest none (some s) = Result.refuse (not (str_eq s "")) file_not_found
  check_digest (some f) checksum =
      Result.refuse (differs checksum (codec.sha256 (host.file_bytes f))) value_error

  -- What is read and checked before any state is touched: the mode, the digest of the file, the bundle
  -- and the name in its manifest.
  unfoldable pub read_source :
      String → Option BundleFile → Option String → String → Result (Fields × List ℕ × List Fields)
  unfolding read_bundle get check_digest
  read_source collection_name source checksum mode =
      Result.◌>>◌ (Result.refuse (not (str_eq mode "replace")) value_error) (
        Result.◌>>◌ (check_digest source checksum) (
          Result.◌>>=◌ (read_bundle codec source) (λ b.
            Result.◌>>◌
              (Result.refuse (not (is_str (get b.0 "collection_name") collection_name))
                conflict_error)
              (ok b))))

  -- The rest of the import, for a bundle that has been read and fits.
  unfoldable pub restore : ℕ → CollectionMeta → Restore → Method Index Flushed
  unfolding flushed_of
  restore now meta r = do
    index ← prepare_or_withdraw now meta r
    updated ← commit now meta r
    modify (λ s. record s { loaded = some index })
    pure (flushed_of updated)

  unfoldable pub import_collection_bundle :
      ℕ → String → Option BundleFile → Option String → String → Method Index Flushed
  unfolding meta_or_raise get
  import_collection_bundle now collection_name source checksum mode = do
    (manifest, index_bytes, rows) ← lift (read_source collection_name source checksum mode)
    meta ← meta_or_raise
    (dim, total) ← lift (check_manifest meta manifest)
    restore now meta (record {
      index_bytes = index_bytes;
      rows = rows;
      dim = dim;
      total = total;
      source_checksum = text_entry (get manifest "index_checksum");
    })
