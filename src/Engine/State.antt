-- ===== src/Engine/State.antt =====
-- What the server keeps of one collection (src/python/hypervec_server_engine.py): its entry in the
-- metadata store, its two SQLite tables, the files of its directory, and its index and scalar cache
-- in memory. A method that changes something
-- holds the collection's write lock meanwhile, so it is one step.
use hyper_vector.Common.{
  ℕ, ◌+◌, Option, none, some, List, [], if◌then◌else◌, ltb, ◌==◌, ◌||◌, String, length,
}
use hyper_vector.Common.Result.{ok, err, file_not_found, key_error}
use hyper_vector.Common.Exec.{Exec}
use hyper_vector.Meta.{CollectionMeta}
use hyper_vector.Scalar.{Scalar, Tables, load_all_scalars}
use hyper_vector.Library.{Codec, Hypervec}
use hyper_vector.Bundle.Archive.{BundleFile}

-- The files of `collections/<name>/`: the index, what stands beside it under a longer suffix, bundles
-- in the directory, and the bundle of the directory `.export.tmp`.
pub record Dir : Type 0 where
  pub index : Option (List ℕ)
  pub index_tmp : Option (List ℕ)
  pub upload_tmp : Option (List ℕ)
  pub staging : Option (List ℕ)
  pub pre_import : Option (List ℕ)
  pub bundles : List BundleFile
  pub export_tmp : Option BundleFile

abbrev pub empty_dir : Dir
empty_dir = record {
  index = none;
  index_tmp = none;
  upload_tmp = none;
  staging = none;
  pre_import = none;
  bundles = [];
  export_tmp = none;
}

abbrev pub Cache : Type 0
Cache = List (ℕ × Scalar)

pub record Collection (Index : Type 0) : Type 0 where
  pub meta : Option CollectionMeta
  pub tables : Tables
  pub dir : Dir
  -- `_indexes` and `_scalar_cache` at the collection's name.
  pub loaded : Option Index
  pub cache : Option Cache

-- What the engine is given: the codecs, the index module, the digest of a bundle file, and
-- HYPERVEC_SCALAR_CACHE_MAX_ROWS.
pub record Host (Index : Type 0) : Type 0 where
  pub codec : Codec
  pub hypervec : Hypervec Index
  pub file_bytes : BundleFile → List ℕ
  pub cache_max_rows : ℕ

abbrev pub Method : Type 0 → Type 0 → Type 0
Method Index A = Exec (Collection Index) A

module _ {Index : Type 0} where
  -- `_meta_or_raise`
  unfoldable pub meta_or_raise : Method Index CollectionMeta
  meta_or_raise s = elim s.meta [ none ↦ (err file_not_found, s) | some m ↦ (ok m, s) ]

  -- `meta_store.update` of the collection's entry.
  unfoldable pub meta_update : ℕ → (CollectionMeta → CollectionMeta) → Method Index CollectionMeta
  meta_update now change s = elim s.meta [
    | none ↦ (err key_error, s)
    | some m ↦ (
      ok (record (change m) { updated_at = now }),
      record s { meta = some (record (change m) { updated_at = now }) },
    )
  ]

  -- `meta_store.bump_version`
  unfoldable pub meta_bump : ℕ → (CollectionMeta → CollectionMeta) → Method Index CollectionMeta
  unfolding meta_update
  meta_bump now change = meta_update now (λ m. change (record m { version = m.version + 1 }))

  -- A method of the scalar store, on the collection's tables.
  abbrev pub on_tables : {A : Type 0} → Exec Tables A → Method Index A
  on_tables f s = let (r, t) = f s.tables in (r, record s { tables = t })

module _ {Index : Type 0} (host : Host Index) where
  -- `_refresh_scalar_cache`: the cache is filled only up to the limit on rows.
  unfoldable pub refresh_scalar_cache : CollectionMeta → Collection Index → Collection Index
  unfolding load_all_scalars
  refresh_scalar_cache meta s =
      if host.cache_max_rows == 0 || ltb host.cache_max_rows meta.total
      then record s { cache = none }
      else record s { cache = some (load_all_scalars s.tables) }

-- `_index_file_info`: the digest and the size of a file.
abbrev pub checksum_of : Codec → Option (List ℕ) → Option String
checksum_of c none = none
checksum_of c (some bytes) = some (c.sha256 bytes)

abbrev pub size_of : Option (List ℕ) → Option ℕ
size_of none = none
size_of (some bytes) = some (length bytes)
