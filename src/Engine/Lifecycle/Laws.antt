-- ===== src/Engine/Lifecycle/Laws.antt =====
-- What creating and removing a collection leaves (src/python/hypervec_server_engine.py).
use hyper_vector.Common.{ℕ, ◌≡◌, refl, String, none, some, [], arith}
use hyper_vector.Common.Result.{ok, err, file_exists}
use hyper_vector.Json.{Json, Fields}
use hyper_vector.Meta.{CollectionMeta}
use hyper_vector.Scalar.{drop_table, ensure_table, count}
use hyper_vector.Engine.State.{Collection, Host, empty_dir}
use hyper_vector.Engine.Lifecycle.{
  created_entry, meta_response, create_collection, drop_collection, drop_entry, drop_rows, drop_dir,
}

module _ {Index : Type 0} (host : Host Index) (now : ℕ) (name index_path : String)
    (schema index_params : Fields) where
  abbrev repr : Json → String
  repr = host.codec.repr

  -- A new collection: an entry with no rows, no index and no dimension, and an empty table. Nothing is asked
  -- of the staging table.
  pub record IsFresh (t : Collection Index) : Type 0 where
    pub entry : t.meta ≡ some (created_entry repr now name index_path schema index_params)
    pub rows : t.tables.live ≡ some []
    pub dir : t.dir ≡ empty_dir
    pub loaded : t.loaded ≡ none
    pub cache : t.cache ≡ none

  -- Whatever a collection held, after it is dropped it can be created: it then has a new entry, an empty
  -- table, no files and nothing in memory. The staging table of an import that was never finished is not
  -- dropped, and stays as it was. A second creation is refused and changes nothing.
  pub drop-create-IsFresh :
      (s : Collection Index)
      → let t = (drop_collection s).1 in
        let u = create_collection repr now name index_path schema index_params t in
        (u.0 ≡ ok (meta_response (created_entry repr now name index_path schema index_params)))
        × IsFresh u.1
        × (u.1.tables.staging ≡ s.tables.staging)
        × (create_collection repr now name index_path schema index_params u.1
            ≡ (err file_exists, u.1))
  unfolding create_collection drop_collection drop_entry drop_rows drop_dir ensure_table drop_table
  drop-create-IsFresh s = (
    refl,
    record { entry = refl; rows = refl; dir = refl; loaded = refl; cache = refl },
    refl,
    refl,
  )

  -- If the server stops after `drop_collection` removed the entry and before it dropped the table, then a
  -- collection that is created under the same name has the old rows and the old index file, while its
  -- entry says that it has no rows.
  pub interrupted-drop-create :
      (s : Collection Index)
      → let u = create_collection repr now name index_path schema index_params (drop_entry s) in
        (count u.1.tables ≡ count s.tables)
        × (u.1.dir ≡ s.dir)
        × ((m : CollectionMeta) × (u.1.meta ≡ some m) × (m.total ≡ 0))
  unfolding create_collection drop_entry ensure_table count created_entry
  interrupted-drop-create s =
      (ground arith, refl, (created_entry repr now name index_path schema index_params, refl, refl))
