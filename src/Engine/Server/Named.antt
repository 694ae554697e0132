-- ===== src/Engine/Server/Named.antt =====
-- Every method of the engine keeps the name in the collection's entry.
use hyper_vector.Common.{
  ℕ, ◌+◌, String, Bool, ◌≡◌, refl, Option, none, some, List, map, length, ◌==◌, ◌||◌, arith,
}
use hyper_vector.Common.Result.{Result, file_not_found, value_error}
use hyper_vector.Common.Exec.{
  lift, or_raise, refuse, continue, ◌>>=◌, Keeps, continue-Keeps, bind-Keeps,
}
use hyper_vector.Json.{Json, Fields}
use hyper_vector.Meta.{CollectionMeta}
use hyper_vector.Scalar.{export_rows, commit_staging, get_vectors}
use hyper_vector.Bundle.Archive.{BundleFile, create_bundle}
use hyper_vector.Bundle.Lines.{Text}
use hyper_vector.Engine.State.{
  Collection, Host, Method, meta_or_raise, meta_update, meta_bump, refresh_scalar_cache,
  checksum_of, size_of,
}
use hyper_vector.Engine.Lifecycle.{
  create_collection, drop_collection, describe_collection, get_version,
}
use hyper_vector.Engine.IndexConfig.{index_spec, index_config}
use hyper_vector.Engine.Insert.{insert}
use hyper_vector.Engine.Flush.{flush, load_collection, fill, write_index}
use hyper_vector.Engine.Search.{Matrix, search}
use hyper_vector.Engine.Upload.{upload_index, index_path_for_download, sync_check}
use hyper_vector.Engine.Export.{
  export_collection_bundle, check_export, place_bundle, check_bundle, mark_exported, live_index,
  row_to_dict,
}
use hyper_vector.Engine.Import.{
  Restore, import_collection_bundle, restore, read_source, check_manifest, prepare_or_withdraw,
  prepare, withdraw, stage_index, mark_importing, commit, set_aside, switch_index, finalize,
  drop_pre_import,
}
use hyper_vector.Engine.Import.Laws.{stage_rows-frame, check_staged-state}
use hyper_vector.Engine.Purge.{purge_collection_data}

-- The entry, if there is one, has the name.
abbrev pub HasName : String → Option CollectionMeta → Type 0
HasName name none = Unit
HasName name (some m) = m.collection_name ≡ name

-- A method that keeps the name, whether it raises or returns.
abbrev pub KeepsName : {Index A : Type 0} → String → Method Index A → Type 0
KeepsName name f = Keeps (λ s. HasName name s.meta) f

module _ {Index A B : Type 0} (name : String) where
  continue-KeepsName :
      (r : Result A) (f : A → Method Index B) (s : Collection Index)
      → HasName name s.meta
      → ((a : A) → KeepsName name (f a))
      → HasName name (continue r f s).1.meta
  continue-KeepsName = continue-Keeps (λ s. HasName name s.meta)

  bind-KeepsName :
      (m : Method Index A) (f : A → Method Index B)
      → KeepsName name m
      → ((a : A) → KeepsName name (f a))
      → KeepsName name (m >>= f)
  bind-KeepsName = bind-Keeps (λ s. HasName name s.meta)

module _ {Index : Type 0} (host : Host Index) (name : String) where
  meta_or_raise-KeepsName : KeepsName name (meta_or_raise {Index = Index})
  unfolding meta_or_raise
  meta_or_raise-KeepsName s h = ground arith

  check_export-KeepsName : (m : CollectionMeta) → KeepsName name (check_export host m)
  unfolding check_export live_index
  check_export-KeepsName m s h = ground arith

  place_bundle-KeepsName :
      (now : ℕ) (to_download : Bool) (m : CollectionMeta) (n rows : ℕ) (b : Fields × BundleFile)
      → KeepsName name (place_bundle host now to_download m n rows b)
  unfolding place_bundle mark_exported meta_update check_bundle live_index
  place_bundle-KeepsName now to_download m n rows b s h = ground arith

  pub export-KeepsName :
      (now : ℕ) (to_download : Bool)
      → KeepsName name (export_collection_bundle host now name to_download)
  unfolding export_collection_bundle
  export-KeepsName now to_download =
      bind-KeepsName name meta_or_raise _ meta_or_raise-KeepsName λ m.
        bind-KeepsName name (check_export host m) _ (check_export-KeepsName m) λ n s h.
          continue-KeepsName name (or_raise file_not_found s.dir.index s).0 _
            (or_raise file_not_found s.dir.index s).1 (ground arith)
            λ b t k.
              let rows = map (row_to_dict host.codec) (export_rows t.tables) in
              place_bundle-KeepsName now to_download m n (length rows)
                (create_bundle host.codec now name b rows m) t k

  prepare_or_withdraw-KeepsName :
      (now : ℕ) (m : CollectionMeta) (r : Restore)
      → KeepsName name (prepare_or_withdraw host now m r)
  unfolding prepare_or_withdraw prepare withdraw stage_index mark_importing
  prepare_or_withdraw-KeepsName now m r s h = ground (
    arith,
    stage_rows-frame host now m r (stage_index host r.index_bytes s),
    check_staged-state host now m r (stage_index host r.index_bytes s),
  )

  commit-KeepsName :
      (now : ℕ) (m : CollectionMeta) (r : Restore) → KeepsName name (commit host now m r)
  unfolding commit set_aside switch_index commit_staging finalize drop_pre_import
  commit-KeepsName now m r s h = ground arith

  pub import-KeepsName :
      (now : ℕ) (source : Option BundleFile) (checksum : Option String) (mode : String)
      → KeepsName name (import_collection_bundle host now name source checksum mode)
  unfolding import_collection_bundle restore
  import-KeepsName now source checksum mode =
      bind-KeepsName name (lift (read_source host name source checksum mode)) _ (λ s h. h)
        λ b. bind-KeepsName name meta_or_raise _ meta_or_raise-KeepsName λ m.
          bind-KeepsName name (lift (check_manifest host m b.0)) _ (λ s h. h)
            λ c.
              bind-KeepsName name (prepare_or_withdraw host now m _) _
                (prepare_or_withdraw-KeepsName now m _)
                λ i.
                  bind-KeepsName name (commit host now m _) _ (commit-KeepsName now m _) λ u s h. h

  meta_bump-KeepsName :
      (now : ℕ) (change : CollectionMeta → CollectionMeta)
      → ((m : CollectionMeta) → (change m).collection_name ≡ m.collection_name)
      → KeepsName name (meta_bump {Index = Index} now change)
  unfolding meta_bump meta_update
  meta_bump-KeepsName now change same s h = by_entry s.meta refl h
    where
      by_entry :
          (o : Option CollectionMeta)
          → s.meta ≡ o
          → HasName name o
          → HasName name (meta_bump now change s).1.meta
      by_entry none e k = ground arith
      by_entry (some m) e k = ground (arith, same (record m { version = m.version + 1 }))

  refresh-KeepsName :
      (m : CollectionMeta) (s : Collection Index)
      → HasName name s.meta
      → HasName name (refresh_scalar_cache host m s).meta
  unfolding refresh_scalar_cache
  refresh-KeepsName m s h = ground arith

  pub flush-KeepsName : (now : ℕ) → KeepsName name (flush host now)
  unfolding flush
  flush-KeepsName now = bind-KeepsName name meta_or_raise _ meta_or_raise-KeepsName λ m.
      bind-KeepsName name (or_raise value_error m.dim) _ (λ s h. ground arith)
        λ dim s h. continue-KeepsName name (get_vectors dim s.tables) _ s h λ vectors.
          bind-KeepsName name (refuse (length vectors == 0 || dim == 0) value_error) _
            (λ t k. ground arith)
            λ u t k.
              continue-KeepsName name
                (index_spec host.codec.repr host.codec.truncate dim (index_config m)) _ t k
                λ spec v l.
                  let index = fill host (host.hypervec.make spec) vectors in
                  let written = write_index host index v in
                  let change : CollectionMeta → CollectionMeta = λ x. record x {
                    dim = some dim;
                    total = length vectors;
                    flushed_at = some now;
                    index_version = m.data_version;
                    index_checksum = checksum_of host.codec written.dir.index;
                    index_size_bytes = size_of written.dir.index;
                  } in
                  bind-KeepsName name (meta_bump now change) _
                    (meta_bump-KeepsName now change (λ x. refl))
                    (λ updated w o. refresh-KeepsName updated (record w { loaded = some index }) o)
                    written l

  pub insert-KeepsName : (now : ℕ) (batch : List Fields) → KeepsName name (insert host now batch)
  unfolding insert
  insert-KeepsName now batch s h = ground arith

  pub load-KeepsName : KeepsName name (load_collection host)
  unfolding load_collection
  load-KeepsName s h = ground arith

  pub search-KeepsName :
      (query : Option Matrix) (limit : ℕ) (params : Fields) (outputs : List String) (filter : Text)
      → KeepsName name (search host query limit params outputs filter)
  unfolding search
  search-KeepsName query limit params outputs filter s h = ground arith

  pub upload-KeepsName :
      (now : ℕ) (source : Option (List ℕ)) (version : Option ℕ) (checksum : Option String)
      → KeepsName name (upload_index host now source version checksum)
  unfolding upload_index
  upload-KeepsName now source version checksum s h = ground arith

  pub path-KeepsName : KeepsName name (index_path_for_download host)
  unfolding index_path_for_download
  path-KeepsName s h = ground arith

  pub sync_check-KeepsName :
      (version : ℕ) (checksum : Option String) → KeepsName name (sync_check host version checksum)
  unfolding sync_check
  sync_check-KeepsName version checksum s h = ground arith

module _ {Index : Type 0} (name : String) where
  pub purge-KeepsName :
      (now : ℕ) (exported : Bool)
      → KeepsName {Index = Index} name (purge_collection_data now exported)
  unfolding purge_collection_data
  purge-KeepsName now exported s h = ground arith

  pub create-KeepsName :
      (repr : Json → String) (now : ℕ) (path : String) (schema params : Fields)
      → KeepsName {Index = Index} name (create_collection repr now name path schema params)
  unfolding create_collection
  create-KeepsName repr now path schema params s h = ground arith

  pub describe-KeepsName : KeepsName {Index = Index} name describe_collection
  unfolding describe_collection
  describe-KeepsName s h = ground arith

  pub version-KeepsName : KeepsName {Index = Index} name get_version
  unfolding get_version
  version-KeepsName s h = ground arith

  pub drop-KeepsName : KeepsName {Index = Index} name drop_collection
  unfolding drop_collection
  drop-KeepsName s h = tt
