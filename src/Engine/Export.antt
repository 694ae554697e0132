-- ===== src/Engine/Export.antt =====
-- `export_collection_bundle` of src/python/hypervec_server_engine.py, with the rows of `export_rows`.
pub mod Laws
use hyper_vector.Common.{
  ℕ, ◌+◌, String, Bool, true, false, not, ◌&&◌, ◌||◌, Option, none, some, List, [], ◌∷◌, map, ◌==◌,
  str_eq, length, if◌then◌else◌,
}
use hyper_vector.Common.Result.{
  Result, ok, err, Error, conflict_error, file_not_found, value_error, runtime_error,
}
use hyper_vector.Common.Exec.{pure, lift, gets, modify, refuse, or_raise, ◌>>=◌, ◌>>◌}
use hyper_vector.Json.{Json, int, str, obj, Fields, end, field, get}
use hyper_vector.Library.{Codec, Hypervec}
use hyper_vector.Meta.{CollectionMeta, DataState, ready, purged, importing, invalid}
use hyper_vector.Scalar.{Doc, count, export_rows}
use hyper_vector.Bundle.Archive.{BundleFile, create_bundle, bundle_format}
use hyper_vector.Engine.State.{Collection, Host, Method, meta_or_raise, meta_update}
use hyper_vector.Engine.Flush.{read_index}

-- A row as `export_rows` hands it out.
unfoldable pub row_to_dict : Codec → Doc → Fields
row_to_dict c a = field "row_id" (int a.row_id) (
    field "doc_id" (str a.doc_id) (
      field "vector" (c.to_list a.vector) (
        field "text_content" (str a.text_content) (
          field "metadata" (obj a.metadata)
            (field "created_at" (int a.created_at) (field "updated_at" (int a.updated_at) end))))))

-- The states that have nothing sound to export.
unfoldable pub is_unexportable : DataState → Bool
is_unexportable ready = false
is_unexportable purged = true
is_unexportable importing = true
is_unexportable invalid = true

abbrev pub dim_differs : Option ℕ → ℕ → Bool
dim_differs none d = false
dim_differs (some n) d = not (d == n)

-- What `manifest["exported_at"]` holds.
abbrev exported_at : Fields → Option ℕ
exported_at d = elim (get d "exported_at") [
  | some v ↦ elim v [ int n ↦ some n | _ ↦ none ]
  | none ↦ none
]

abbrev is_int : Option Json → ℕ → Bool
is_int (some (int m)) n = m == n
is_int _ n = false

abbrev is_none : Option ℕ → Bool
is_none none = true
is_none (some n) = false

pub record Exported : Type 0 where
  pub file : BundleFile
  pub version : ℕ
  pub bundle_checksum : String
  pub manifest : Fields

module _ {Index : Type 0} (host : Host Index) where
  open host use {codec, hypervec}

  -- `self._indexes.get(name)`, or the index file read into it.
  unfoldable pub live_index : Method Index Index
  unfolding read_index
  live_index s = elim s.loaded [
    | some index ↦ (ok index, s)
    | none ↦ elim (read_index host s.dir.index) [
      | ok index ↦ (ok index, record s { loaded = some index })
      | err e ↦ (err e, s)
    ]
  ]

  -- Everything that is checked before the bundle is written: the index file, its version, and the
  -- counts and dimensions. The result is the number of rows.
  unfoldable pub check_export : CollectionMeta → Method Index ℕ
  unfolding is_unexportable live_index count
  check_export meta = do
    refuse (is_unexportable meta.data_state) conflict_error
    file ← gets (λ s. s.dir.index)
    or_raise file_not_found file
    refuse (not (meta.index_version == meta.data_version)) conflict_error
    index ← live_index
    scalar_count ← gets (λ s. count s.tables)
    refuse (not (hypervec.n_total index == scalar_count && scalar_count == meta.total))
        conflict_error
    refuse (dim_differs meta.dim (hypervec.dim index)) conflict_error
    pure scalar_count

  -- The manifest against the observed counts; on a failure the file that was written is removed.
  unfoldable pub check_bundle : CollectionMeta → ℕ → Fields → Bool → Method Index (Unit {0})
  unfolding get live_index
  check_bundle meta scalar_count manifest to_download = do
    index ← live_index
    let agrees =
        is_int (get manifest "total") scalar_count
        && (is_none meta.dim || is_int (get manifest "dim") (hypervec.dim index))
    modify (λ s.
        if agrees || not to_download
        then s
        else record s { dir = record s.dir { export_tmp = none } })
    refuse (not agrees) conflict_error

  -- The last export in the entry, for an export of `rows` rows as `bundle`.
  unfoldable pub mark_exported :
      ℕ → CollectionMeta → ℕ → Fields × BundleFile → Method Index CollectionMeta
  unfolding meta_update get
  mark_exported now meta rows bundle = meta_update now (λ m. record m {
    last_exported_at = exported_at bundle.0;
    last_known_total = some rows;
    bundle_format = some bundle_format;
    exported_data_version = some meta.data_version;
    exported_bundle_checksum = some (codec.sha256 (host.file_bytes bundle.1));
    exported_index_version = some meta.index_version;
    exported_index_checksum = meta.index_checksum;
  })

  -- The bundle is placed, compared with what was observed, and recorded.
  unfoldable pub place_bundle :
      ℕ → Bool → CollectionMeta → ℕ → ℕ → Fields × BundleFile → Method Index Exported
  unfolding check_bundle mark_exported
  place_bundle now to_download meta scalar_count rows bundle = do
    modify (λ s.
        if to_download then record s { dir = record s.dir { export_tmp = some bundle.1 } } else s)
    check_bundle meta scalar_count bundle.0 to_download
    mark_exported now meta rows bundle
    pure (record {
      file = bundle.1;
      version = meta.version;
      bundle_checksum = codec.sha256 (host.file_bytes bundle.1);
      manifest = bundle.0;
    })

  -- The bundle. `to_download` is the call with no output path, which leaves the file in
  -- `.export.tmp`; a file elsewhere is not part of the collection.
  unfoldable pub export_collection_bundle : ℕ → String → Bool → Method Index Exported
  unfolding meta_or_raise check_export place_bundle export_rows create_bundle row_to_dict
  export_collection_bundle now collection_name to_download = do
    meta ← meta_or_raise
    scalar_count ← check_export meta
    file ← gets (λ s. s.dir.index)
    index_bytes ← or_raise file_not_found file
    docs ← gets (λ s. export_rows s.tables)
    let rows = map (row_to_dict codec) docs
    let bundle = create_bundle codec now collection_name index_bytes rows meta
    place_bundle now to_download meta scalar_count (length rows) bundle
