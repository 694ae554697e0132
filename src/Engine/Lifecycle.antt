-- ===== src/Engine/Lifecycle.antt =====
-- Creating, removing and describing a collection (src/python/hypervec_server_engine.py:
-- `create_collection`, `drop_collection`, `has_collection`, `describe_collection`, `get_version`,
-- `_meta_response`).
pub mod Laws
use hyper_vector.Common.{ℕ, String, Bool, true, false, Option, none, some, List, if◌then◌else◌}
use hyper_vector.Common.Result.{Result, ok, err, file_exists}
use hyper_vector.Common.Exec.{pure, gets, modify, refuse, ◌>>=◌, ◌>>◌}
use hyper_vector.Json.{Json, str, arr, nil, Fields, end, field, put, is_empty}
use hyper_vector.Meta.{CollectionMeta}
use hyper_vector.Meta.Codec.{to_dict}
use hyper_vector.Meta.Store.{new_meta}
use hyper_vector.Scalar.{ensure_table, drop_table}
use hyper_vector.Engine.Schema.{schema_fields, id_field, vector_field, text_field}
use hyper_vector.Engine.State.{Collection, Host, Dir, empty_dir, Method, meta_or_raise}

-- `_meta_response`: its other entries are entries of `meta`, under their own names.
pub record MetaResponse : Type 0 where
  pub meta : CollectionMeta
  pub fields : List Fields
  pub manifest : Fields

unfoldable pub meta_response : CollectionMeta → MetaResponse
unfolding schema_fields put
meta_response meta = record {
  meta = meta;
  fields = schema_fields meta.schema;
  manifest = put (to_dict meta) "backend" (str "hypervec-server");
}

-- dict(index_params or {"indexes": []})
abbrev pub params_or_none : Fields → Fields
params_or_none d = if is_empty d then field "indexes" (arr nil) end else d

-- The entry that a new collection gets.
unfoldable pub created_entry :
    (Json → String) → ℕ → String → String → Fields → Fields → CollectionMeta
unfolding new_meta id_field vector_field text_field
created_entry repr now name index_path schema index_params = new_meta now name (record {
  schema = schema;
  index_params = params_or_none index_params;
  id_field = id_field repr schema;
  vector_field = vector_field repr schema;
  text_field = text_field repr schema;
  index_path = index_path;
})

abbrev pub exists : Option CollectionMeta → Bool
exists none = false
exists (some m) = true

module _ {Index : Type 0} where
  unfoldable pub has_collection : Method Index Bool
  has_collection = gets (λ s. exists s.meta)

  -- The directory is made where it is not there; files that it holds stay.
  unfoldable pub create_collection :
      (Json → String) → ℕ → String → String → Fields → Fields → Method Index MetaResponse
  unfolding created_entry meta_response
  create_collection repr now name index_path schema index_params = do
    known ← gets (λ s. exists s.meta)
    refuse known file_exists
    let meta = created_entry repr now name index_path schema index_params
    modify (λ s. record s { meta = some meta })
    modify (λ s. record s { tables = ensure_table s.tables })
    pure (meta_response meta)

  -- The durable writes of `drop_collection`, in order: the entry, the live table, the directory.
  unfoldable pub drop_entry : Collection Index → Collection Index
  drop_entry s = record s { meta = none }

  unfoldable pub drop_rows : Collection Index → Collection Index
  drop_rows s = record s { tables = drop_table s.tables }

  unfoldable pub drop_dir : Collection Index → Collection Index
  drop_dir s = record s {
    dir = record s.dir {
      index = none;
      index_tmp = none;
      upload_tmp = none;
      staging = none;
      pre_import = none;
      bundles = List.[];
      export_tmp = none;
    };
  }

  -- The result is `existed`.
  unfoldable pub drop_collection : Method Index Bool
  unfolding drop_entry drop_rows drop_dir
  drop_collection = do
    existed ← gets (λ s. exists s.meta)
    modify drop_entry
    modify (λ s. record s { loaded = none; cache = none })
    modify drop_rows
    modify drop_dir
    pure existed

  unfoldable pub describe_collection : Method Index MetaResponse
  unfolding meta_or_raise meta_response
  describe_collection = do meta ← meta_or_raise; pure (meta_response meta)

  -- The answer's entries are entries of the metadata, under their own names.
  unfoldable pub get_version : Method Index CollectionMeta
  unfolding meta_or_raise
  get_version = meta_or_raise
